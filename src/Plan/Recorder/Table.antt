-- ===== src/Plan/Recorder/Table.antt =====
-- crates/hull-ci-plan/src/pipeline.rs: the depths of a plan's steps, as a table by name that grows at its end.
use hull_ci.Base.{
  ℕ, ◌+◌, max, ◌≡◌, refl, ◌∙◌, List, [], ◌∷◌, ◌++◌, Option, none, some, Text, text_eq, text_keys,
  get, All, arith, if◌then◌else◌,
}
use hull_ci.Plan.Error.{ok}
use hull_ci.Plan.Validate.{check_step_name}
use hull_ci.Plan.Pipeline.{PlanStep, deepest, depth_from}

-- The depths after some more steps.
unfoldable pub table_from : List (Text × ℕ) → List PlanStep → List (Text × ℕ)
unfolding deepest
table_from depths [] = depths
table_from depths (s ∷ ss) = table_from (depths ++ (s.name, 1 + deepest depths s.needs) ∷ []) ss

-- Each step has a proper name that no step before it has, and needs only steps before it.
unfoldable pub Ordered : List (Text × ℕ) → List PlanStep → Type 0
Ordered depths [] = Unit
Ordered depths (s ∷ ss) =
    (check_step_name s.name ≡ ok tt)
    × (get s.name depths ≡ none)
    × All (λ n. (d : ℕ) × (get n depths ≡ some d)) s.needs
    × Ordered (depths ++ (s.name, 1 + deepest depths s.needs) ∷ []) ss

unfoldable pub or_else : Option ℕ → Option ℕ → Option ℕ
or_else none o = o
or_else (some d) o = some d

pub get-append :
    (n k : Text) (d : ℕ) (m : List (Text × ℕ))
    → get n (m ++ (k, d) ∷ []) ≡ or_else (get n m) (if text_eq k n then some d else none)
unfolding get or_else
get-append n k d [] = refl
get-append n k d ((j, v) ∷ m) = ground (arith, get-append n k d m)

pub get-append_absent :
    (n k : Text) (d : ℕ) (m : List (Text × ℕ))
    → get n m ≡ none
    → get n (m ++ (k, d) ∷ []) ≡ (if text_eq k n then some d else none)
unfolding or_else
get-append_absent n k d m h = get-append n k d m ∙ rw h

pub get-append_there :
    (n k : Text) (d v : ℕ) (m : List (Text × ℕ))
    → get n m ≡ some v
    → get n (m ++ (k, d) ∷ []) ≡ some v
unfolding or_else
get-append_there n k d v m h = get-append n k d m ∙ rw h

pub table_from-append :
    (depths : List (Text × ℕ)) (ss : List PlanStep) (s : PlanStep)
    → table_from depths (ss ++ s ∷ [])
      ≡ table_from depths ss ++ (s.name, 1 + deepest (table_from depths ss) s.needs) ∷ []
unfolding table_from
table_from-append depths [] s = refl
table_from-append depths (r ∷ ss) s =
    table_from-append (depths ++ (r.name, 1 + deepest depths r.needs) ∷ []) ss s

pub depth_from-append :
    (depths : List (Text × ℕ)) (top : ℕ) (ss : List PlanStep) (s : PlanStep)
    → depth_from depths top (ss ++ s ∷ [])
      ≡ max (depth_from depths top ss) (1 + deepest (table_from depths ss) s.needs)
unfolding table_from depth_from
depth_from-append depths top [] s = refl
depth_from-append depths top (r ∷ ss) s =
    depth_from-append (depths ++ (r.name, 1 + deepest depths r.needs) ∷ [])
      (max top (1 + deepest depths r.needs)) ss s

pub Ordered-append :
    (depths : List (Text × ℕ)) (ss : List PlanStep) (s : PlanStep)
    → Ordered depths ss
    → check_step_name s.name ≡ ok tt
    → get s.name (table_from depths ss) ≡ none
    → All (λ n. (d : ℕ) × (get n (table_from depths ss) ≡ some d)) s.needs
    → Ordered depths (ss ++ s ∷ [])
unfolding table_from Ordered
Ordered-append depths [] s o named absent met = (named, absent, met, tt)
Ordered-append depths (r ∷ ss) s o named absent met = (
  o.0,
  o.1,
  o.2,
  Ordered-append (depths ++ (r.name, 1 + deepest depths r.needs) ∷ []) ss s o.3 named absent met,
)
