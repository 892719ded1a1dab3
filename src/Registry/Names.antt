-- ===== src/Registry/Names.antt =====
-- The names under which the tools are registered (mcp-tools.go).
use mathlib.Core.Path.{subst}
use devbrowser.Prelude.{
  ℕ, zero, suc, ◌≡◌, refl, sym, ap, ◌∙◌, some, List, [], ◌∷◌, ◌++◌, All, get_elem?, Bool, true,
  false, not, ◌&&◌,
}
use devbrowser.Text.{Text, codes, text_eq, text_eq_refl, text_eq_iff}
use devbrowser.Models.All.{model}
use devbrowser.Registry.{Tool, get_mcp_tools}

-- No tool of the list has that name.
lacks : Text → List Tool → Bool
unfolding text_eq
lacks s [] = true
lacks s (t ∷ ts) = not (text_eq s t.name) && lacks s ts

distinct : List Tool → Bool
unfolding lacks
distinct [] = true
distinct (t ∷ ts) = lacks t.name ts && distinct ts

-- The name of a tool is that of its arguments, with the prefix of the browser for their suffix.
abbrev pub IsNamed : Tool → Type 0
IsNamed t = t.name ++ codes "_args" ≡ codes "browser_" ++ (model t.args).model_name

same_tool : (t u : Tool) → some u ≡ some t → u ≡ t
same_tool t u e = cc

All-get_elem? :
    (P : Tool → Type 0) (ts : List Tool) (i : ℕ) (t : Tool)
    → All P ts
    → get_elem? ts i ≡ some t
    → P t
All-get_elem? P [] i t h e = cc
All-get_elem? P (u ∷ us) zero t (p, h) e = subst P (same_tool t u e) p
All-get_elem? P (u ∷ us) (suc i) t (p, h) e = All-get_elem? P us i t h e

left_of : (a b : Bool) → (a && b) ≡ true → a ≡ true
left_of true b h = refl
left_of false b h = cc

right_of : (a b : Bool) → (a && b) ≡ true → b ≡ true
right_of true b h = h
right_of false b h = cc

not-eq-text_eq : (s t : Text) → not (text_eq s t) ≡ true → s ≡ t → ⊥
not-eq-text_eq s t h e = cc (text_eq_refl s, ap (text_eq s) e)

lacks_at :
    (s : Text) (ts : List Tool) (i : ℕ) (t : Tool)
    → lacks s ts ≡ true
    → get_elem? ts i ≡ some t
    → s ≡ t.name
    → ⊥
unfolding lacks
lacks_at s [] i t h e f = cc
lacks_at s (u ∷ us) zero t h e f =
    not-eq-text_eq s u.name (left_of _ _ h) (f ∙ ap (λ (x : Tool). x.name) (sym (same_tool t u e)))
lacks_at s (u ∷ us) (suc i) t h e f = lacks_at s us i t (right_of (not (text_eq s u.name)) _ h) e f

name_of : (t u : Tool) → some u ≡ some t → u.name ≡ t.name
name_of t u e = ap (λ (x : Tool). x.name) (same_tool t u e)

distinct_at :
    (ts : List Tool) (i j : ℕ) (t u : Tool)
    → distinct ts ≡ true
    → get_elem? ts i ≡ some t
    → get_elem? ts j ≡ some u
    → t.name ≡ u.name
    → i ≡ j
unfolding distinct
distinct_at [] i j t u h e f n = cc
distinct_at (x ∷ xs) zero zero t u h e f n = refl
distinct_at (x ∷ xs) zero (suc j) t u h e f n =
    absurd (lacks_at x.name xs j u (left_of _ _ h) f (name_of t x e ∙ n))
distinct_at (x ∷ xs) (suc i) zero t u h e f n =
    absurd (lacks_at x.name xs i t (left_of _ _ h) e (name_of u x f ∙ sym n))
distinct_at (x ∷ xs) (suc i) (suc j) t u h e f n =
    ap suc (distinct_at xs i j t u (right_of (lacks x.name xs) _ h) e f n)

all_distinct : distinct get_mcp_tools ≡ true
unfolding distinct
all_distinct = refl

has_name : Tool → Bool
unfolding text_eq
has_name t = text_eq (t.name ++ codes "_args") (codes "browser_" ++ (model t.args).model_name)

named : List Tool → Bool
unfolding has_name
named [] = true
named (t ∷ ts) = has_name t && named ts

named-All : (ts : List Tool) → named ts ≡ true → All IsNamed ts
unfolding named has_name
named-All [] h = tt
named-All (t ∷ ts) h =
    ((text_eq_iff _ _).0 (left_of (has_name t) _ h), named-All ts (right_of (has_name t) _ h))

all_named : named get_mcp_tools ≡ true
unfolding named
all_named = refl

-- Two tools of the list with one name stand at the same place, so each name is registered once, and
-- each tool is named after its arguments: without the prefix of its name and the suffix of theirs,
-- the two names are the same.
pub get_mcp_tools-IsNamed :
    (i j : ℕ) (t u : Tool)
    → get_elem? get_mcp_tools i ≡ some t
    → get_elem? get_mcp_tools j ≡ some u
    → t.name ≡ u.name
    → (i ≡ j) × (t.name ++ codes "_args" ≡ codes "browser_" ++ (model t.args).model_name)
get_mcp_tools-IsNamed i j t u e f n = (
  distinct_at get_mcp_tools i j t u all_distinct e f n,
  All-get_elem? IsNamed get_mcp_tools i t (named-All get_mcp_tools all_named) e,
)
