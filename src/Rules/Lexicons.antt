-- ===== src/Rules/Lexicons.antt =====
-- packages/research-engine/src/rules/lexicons.ts: the terms of the rules.
use amazon_research_agent.Base.{String, List, [], ◌∷◌}

abbrev pub electric_or_battery_terms : List String
electric_or_battery_terms =
    "electric" ∷ "battery" ∷ "batteries" ∷ "battery powered" ∷ "cordless" ∷ "rechargeable"
    ∷ "usb powered" ∷ "motorized" ∷ []

abbrev pub seasonal_event_terms : List String
seasonal_event_terms =
    "birthday decorations" ∷ "christmas" ∷ "halloween" ∷ "thanksgiving" ∷ "easter"
    ∷ "valentines day" ∷ "valentine day" ∷ "graduation party" ∷ "wedding decorations" ∷ []

abbrev pub brand_or_ip_terms : List String
brand_or_ip_terms =
    "pikachu" ∷ "pokemon" ∷ "disney" ∷ "marvel" ∷ "star wars" ∷ "hello kitty" ∷ "harry potter"
    ∷ "minecraft" ∷ "super mario" ∷ "barbie" ∷ "paw patrol" ∷ []

abbrev pub broad_shopping_intent_terms : List String
broad_shopping_intent_terms =
    "amazon finds" ∷ "best sellers" ∷ "gift ideas" ∷ "gifts for women" ∷ "gifts for men"
    ∷ "kitchen essentials" ∷ "kitchen must haves" ∷ "kitchen stuff" ∷ "kitchen items"
    ∷ "home and kitchen products" ∷ []

abbrev pub irrelevant_subdomain_terms : List String
irrelevant_subdomain_terms =
    "bed sheets" ∷ "duvet cover" ∷ "mattress" ∷ "pillow case" ∷ "shower curtain" ∷ "bathroom rug"
    ∷ "toilet seat" ∷ "wall art" ∷ "pet bed" ∷ "laundry hamper" ∷ "garden hose" ∷ []

abbrev pub fragile_or_heavy_risk_terms : List String
fragile_or_heavy_risk_terms =
    "glass" ∷ "ceramic" ∷ "porcelain" ∷ "crystal" ∷ "marble" ∷ "granite" ∷ "cast iron"
    ∷ "kitchen island" ∷ "dining table" ∷ "kitchen cabinet" ∷ "refrigerator" ∷ "microwave oven"
    ∷ "propane" ∷ "butane" ∷ "gas burner" ∷ []

abbrev pub food_contact_terms : List String
food_contact_terms =
    "bottle" ∷ "dispenser" ∷ "food container" ∷ "food storage" ∷ "lunch box" ∷ "utensil" ∷ "spatula"
    ∷ "cutting board" ∷ "baking" ∷ "cookware" ∷ "cookie" ∷ "cake stand" ∷ []
