-- ===== src/Policy/Explanation/Groups.antt =====
-- Grouping by rule id: each group holds the findings of its rule, and each rule has one group.
use mathlib.Core.List.{append-nil, append_assoc}
use codex_preflight.Base.{
  ◌≡◌, refl, sym, ◌∙◌, String, ◌||◌, List, [], ◌∷◌, ◌++◌, arith, ◌==◌, string_eq, eqb_refl, keep,
  contains, sorted, contains-sorted, NoRepeats, sorted-NoRepeats, if◌then◌else◌,
}
use codex_preflight.Scanner.Finding.{Finding}
use codex_preflight.Policy.Engine.{is_empty}
use codex_preflight.Policy.Engine.Order.{rule_ids}
use codex_preflight.Policy.Explanation.{Groups, add_finding, group_from, group_get, group_keys}

abbrev pub of_rule : String → List Finding → List Finding
of_rule id = keep (λ f. f.rule_id == id)

group_get-add_finding :
    (id : String) (f : Finding) (g : Groups)
    → group_get id (add_finding f g)
      ≡ (if f.rule_id == id then group_get id g ++ (f ∷ []) else group_get id g)
unfolding group_get add_finding
group_get-add_finding id f [] = refl
group_get-add_finding id f ((k, fs) ∷ g) = ground (
  arith,
  string_eq.beq_iff k f.rule_id,
  string_eq.beq_iff k id,
  string_eq.beq_iff f.rule_id id,
  group_get-add_finding id f g,
)

group_get-group_from :
    (id : String) (g : Groups) (fs : List Finding)
    → group_get id (group_from g fs) ≡ group_get id g ++ of_rule id fs
unfolding group_from
group_get-group_from id g [] = sym (append-nil _)
group_get-group_from id g (f ∷ fs) =
    group_get-group_from id (add_finding f g) fs
    ∙ rw group_get-add_finding
        (ground (arith, append_assoc (group_get id g) (f ∷ []) (of_rule id fs)))

-- `grouped[rule_id]` holds the findings of the rule, in order.
pub group_get-group :
    (id : String) (fs : List Finding) → group_get id (group_from [] fs) ≡ of_rule id fs
unfolding group_get
group_get-group id fs = group_get-group_from id [] fs

contains-add_finding :
    (f : Finding) (g : Groups) (a : String)
    → contains (group_keys (add_finding f g)) a ≡ (a == f.rule_id || contains (group_keys g) a)
unfolding add_finding
contains-add_finding f [] a = refl
contains-add_finding f ((k, fs) ∷ g) a =
    ground (arith, string_eq.beq_iff k f.rule_id, contains-add_finding f g a)

contains-group_from :
    (g : Groups) (fs : List Finding) (a : String)
    → contains (group_keys (group_from g fs)) a
      ≡ (contains (group_keys g) a || contains (rule_ids fs) a)
unfolding group_from
contains-group_from g [] a = ground arith
contains-group_from g (f ∷ fs) a =
    ground (arith, contains-group_from (add_finding f g) fs a, contains-add_finding f g a)

add_finding-NoRepeats :
    (f : Finding) (g : Groups) → NoRepeats (group_keys g) → NoRepeats (group_keys (add_finding f g))
unfolding add_finding
add_finding-NoRepeats f [] u = (refl, tt)
add_finding-NoRepeats f ((k, fs) ∷ g) u =
    ground
      (arith, string_eq.beq_iff k f.rule_id, contains-add_finding f g k, add_finding-NoRepeats f g)

group_from-NoRepeats :
    (g : Groups) (fs : List Finding)
    → NoRepeats (group_keys g)
    → NoRepeats (group_keys (group_from g fs))
unfolding group_from
group_from-NoRepeats g [] u = u
group_from-NoRepeats g (f ∷ fs) u =
    group_from-NoRepeats (add_finding f g) fs (add_finding-NoRepeats f g u)

-- `sorted(grouped)`
abbrev pub explained_ids : List Finding → List String
explained_ids fs = sorted (group_keys (group_from [] fs))

pub contains-explained_ids :
    (fs : List Finding) (a : String) → contains (explained_ids fs) a ≡ contains (rule_ids fs) a
contains-explained_ids fs a =
    contains-sorted (group_keys (group_from [] fs)) a ∙ contains-group_from [] fs a

pub explained_ids-NoRepeats : (fs : List Finding) → NoRepeats (explained_ids fs)
explained_ids-NoRepeats fs =
    sorted-NoRepeats (group_keys (group_from [] fs)) (group_from-NoRepeats [] fs tt)

empty_of_same :
    (xs ys : List String)
    → ((a : String) → contains xs a ≡ contains ys a)
    → is_empty xs ≡ is_empty ys
empty_of_same [] [] h = refl
empty_of_same [] (y ∷ ys) h = ground (arith, h y, eqb_refl y)
empty_of_same (x ∷ xs) [] h = ground (arith, h x, eqb_refl x)
empty_of_same (x ∷ xs) (y ∷ ys) h = refl

is_empty-rule_ids : (fs : List Finding) → is_empty (rule_ids fs) ≡ is_empty fs
is_empty-rule_ids [] = refl
is_empty-rule_ids (f ∷ fs) = refl

pub is_empty-explained_ids : (fs : List Finding) → is_empty (explained_ids fs) ≡ is_empty fs
is_empty-explained_ids fs =
    empty_of_same (explained_ids fs) (rule_ids fs) (contains-explained_ids fs)
    ∙ is_empty-rule_ids fs
