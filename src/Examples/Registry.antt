-- ===== src/Examples/Registry.antt =====
-- The theorems about the endpoint registry at the small database.
use wemo_matter_bridge.Prelude.{
  ℕ, ◌≡◌, refl, inr, ℤ, List, [], ◌∷◌, none, some, arith, Text, codes, c_str, false,
}
use wemo_matter_bridge.Registry.EndpointRegistry.{answered, lookup, get_or_assign}
use wemo_matter_bridge.Registry.Atomic.{Outcome, assigned, get_or_assign-Outcome}
use wemo_matter_bridge.Registry.Persist.{Unique, Extends, call_all, call_all_keeps}
use wemo_matter_bridge.Registry.Reliable.{Counted}
use wemo_matter_bridge.Registry.Refines.{get_or_assign_refines, get_or_assign-lookup}
use wemo_matter_bridge.Examples.Database.{Db, Contents, tables, demo_sqlite, demo_sqlite-IsReliable}

abbrev pub empty : Contents
empty = record { ids = []; next = none }

abbrev pub new_db : Db
new_db = record { stored = empty; working = empty; active = false }

abbrev path : Text
path = codes "./var/endpoint-map.sqlite3"

pub new_db-Counted : Counted 2 (tables empty)
new_db-Counted = record {
  counter = inr (refl, refl);
  small = omega arith;
  below = λ u v h. absurd (no_id v h);
}
  where
    no_id : (v : ℤ) → none ≡ some v → ⊥
    no_id v h = cc

get_or_assign-Outcome_example :
    Outcome (tables empty) (c_str (codes "uuid:1")) (get_or_assign path (codes "uuid:1") new_db)
get_or_assign-Outcome_example = get_or_assign-Outcome path (codes "uuid:1") new_db

abbrev two_calls : List (Text × Text)
two_calls = (path, codes "uuid:1") ∷ (path, codes "uuid:2") ∷ []

call_all_keeps_example :
    Extends (tables empty) (demo_sqlite.disk (call_all two_calls new_db))
    × (Unique (tables empty) → Unique (demo_sqlite.disk (call_all two_calls new_db)))
call_all_keeps_example = call_all_keeps two_calls new_db

get_or_assign_refines_example :
    ((get_or_assign path (codes "uuid:1") new_db).0 ≡ answered (some 2))
    × (demo_sqlite.disk (get_or_assign path (codes "uuid:1") new_db).1
        ≡ assigned (c_str (codes "uuid:1")) 2 (tables empty))
get_or_assign_refines_example =
    get_or_assign_refines demo_sqlite-IsReliable 2 path (codes "uuid:1") new_db new_db-Counted

get_or_assign-lookup_example :
    let s' = (get_or_assign path (codes "uuid:1") new_db).1 in
    (id : ℕ) × ((get_or_assign path (codes "uuid:1") new_db).0 ≡ answered (some id))
    × ((lookup path (codes "uuid:1") s').0 ≡ some id)
    × (demo_sqlite.disk (lookup path (codes "uuid:1") s').1 ≡ demo_sqlite.disk s')
get_or_assign-lookup_example =
    get_or_assign-lookup demo_sqlite-IsReliable 2 path (codes "uuid:1") new_db new_db-Counted

second_device :
    (get_or_assign path (codes "uuid:2") (call_all two_calls new_db)).0 ≡ answered (some 3)
unfolding get_or_assign call_all c_str
second_device = refl
