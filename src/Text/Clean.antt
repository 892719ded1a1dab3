-- ===== src/Text/Clean.antt =====
-- What `filepath.Clean` returns for a rooted path, and what becomes of a name behind it.
use devbrowser.Prelude.{
  ◌≡◌, refl, ◌∙◌, ap, true, false, ◌||◌, List, [], ◌∷◌, ◌++◌, arith, All, append_assoc, append-nil,
  Bool-cases, ◌⊎◌, inl, inr,
}
use devbrowser.Text.{Text, Lacks, codes, text_eq, is_empty, join}
use devbrowser.Text.Split.{split, split-Lacks, split-append, split-All}
use devbrowser.Text.Paths.{
  up, add_part, add_parts, reversed, shown, clean, with_head, up_to_last, dir,
}

-- A part that stays as it is.
pub record IsProper (part : Text) : Type 0 where
  pub is_part : (is_empty part || text_eq part (codes ".")) ≡ false
  pub is_below : text_eq part (codes "..") ≡ false
  pub lacks : Lacks b'/' part

-- The parts with a separator behind each, and then the text.
abbrev pub trail : List Text → Text → Text
trail [] t = t
trail (part ∷ parts) t = part ++ b'/' ∷ trail parts t

abbrev push_all : List Text → List Text → List Text
push_all stack [] = stack
push_all stack (part ∷ parts) = push_all (part ∷ stack) parts

add_part-proper :
    (stack : List Text) (part : Text) → IsProper part → add_part true stack part ≡ part ∷ stack
unfolding add_part
add_part-proper stack part p = rw (p.is_part, p.is_below) refl

split-trail :
    (stack parts : List Text) (t : Text)
    → All IsProper parts
    → add_parts true stack (split b'/' (trail parts t))
      ≡ add_parts true (push_all stack parts) (split b'/' t)
unfolding add_parts
split-trail stack [] t h = refl
split-trail stack (part ∷ parts) t (p, h) =
    ap (add_parts true stack) (split-append b'/' part (trail parts t) p.lacks)
    ∙ (ap (λ after. add_parts true after (split b'/' (trail parts t)))
          (add_part-proper stack part p)
        ∙ split-trail (part ∷ stack) parts t h)

reversed-push_all :
    (stack parts rest : List Text)
    → reversed (push_all stack parts) rest ≡ reversed stack (parts ++ rest)
reversed-push_all stack [] rest = refl
reversed-push_all stack (part ∷ parts) rest = reversed-push_all (part ∷ stack) parts rest

-- A rooted path of proper parts, with a separator at its end or without.
clean-trail :
    (parts : List Text) (t : Text) (last : List Text)
    → All IsProper parts
    → ((stack : List Text) → add_parts true stack (split b'/' t) ≡ push_all stack last)
    → clean (b'/' ∷ trail parts t) ≡ shown true (parts ++ last)
unfolding clean split add_parts add_part
clean-trail parts t last h e = ap (shown true) (
    ap (λ stack. reversed stack []) (split-trail [] parts t h ∙ e (push_all [] parts))
    ∙ (reversed-push_all (push_all [] parts) last []
        ∙ (reversed-push_all [] parts (last ++ []) ∙ ap (λ more. parts ++ more) (append-nil last))))

clean-dir :
    (parts : List Text) → All IsProper parts → clean (b'/' ∷ trail parts []) ≡ shown true parts
unfolding add_parts add_part split
clean-dir parts h = clean-trail parts [] [] h (λ stack. refl) ∙ ap (shown true) (append-nil parts)

clean-name :
    (parts : List Text) (name : Text)
    → All IsProper parts
    → IsProper name
    → clean (b'/' ∷ trail parts name) ≡ shown true (parts ++ name ∷ [])
unfolding add_parts
clean-name parts name h p = clean-trail parts name (name ∷ []) h (λ stack.
    ap (add_parts true stack) (split-Lacks b'/' name p.lacks) ∙ add_part-proper stack name p)

join-trail :
    (parts : List Text) (name : Text) → join (parts ++ name ∷ []) (codes "/") ≡ trail parts name
unfolding join
join-trail [] name = refl
join-trail (part ∷ []) name = refl
join-trail (part ∷ next ∷ parts) name =
    ap (λ rest. part ++ b'/' ∷ rest) (join-trail (next ∷ parts) name)

join-separated :
    (part : Text) (parts : List Text) (t : Text)
    → join (part ∷ parts) (codes "/") ++ b'/' ∷ t ≡ trail (part ∷ parts) t
unfolding join
join-separated part [] t = refl
join-separated part (next ∷ parts) t =
    append_assoc part (b'/' ∷ join (next ∷ parts) (codes "/")) (b'/' ∷ t)
    ∙ ap (λ rest. part ++ b'/' ∷ rest) (join-separated next parts t)

-- A directory, a separator and a name.
pub clean-shown :
    (parts : List Text) (name : Text)
    → All IsProper parts
    → IsProper name
    → clean (shown true parts ++ b'/' ∷ name) ≡ b'/' ∷ trail parts name
unfolding shown clean split add_parts add_part
clean-shown [] name h p = clean-name [] name tt p
clean-shown (part ∷ parts) name h p =
    ap (λ rest. clean (b'/' ∷ rest)) (join-separated part parts name)
    ∙ (clean-name (part ∷ parts) name h p
        ∙ ap (λ rest. b'/' ∷ rest) (join-trail (part ∷ parts) name))

up_to_last-append : (s t : Text) → up_to_last (s ++ b'/' ∷ t) ≡ s ++ b'/' ∷ up_to_last t
unfolding up_to_last with_head
up_to_last-append [] t = go (up_to_last t)
  where
    go : (rest : Text) → with_head b'/' rest ≡ b'/' ∷ rest
    go [] = refl
    go (d ∷ rest) = refl
up_to_last-append (c ∷ s) t = ap (with_head c) (up_to_last-append s t) ∙ go s
  where
    go : (s : Text) → with_head c (s ++ b'/' ∷ up_to_last t) ≡ c ∷ (s ++ b'/' ∷ up_to_last t)
    go [] = refl
    go (d ∷ s) = refl

up_to_last-Lacks : (s : Text) → Lacks b'/' s → up_to_last s ≡ []
unfolding up_to_last with_head
up_to_last-Lacks [] h = refl
up_to_last-Lacks (c ∷ s) (h, hs) = ground (arith, up_to_last-Lacks s hs)

up_to_last-trail :
    (parts : List Text) (name : Text)
    → Lacks b'/' name
    → up_to_last (trail parts name) ≡ trail parts []
up_to_last-trail [] name h = up_to_last-Lacks name h
up_to_last-trail (part ∷ parts) name h =
    up_to_last-append part (trail parts name)
    ∙ ap (λ rest. part ++ b'/' ∷ rest) (up_to_last-trail parts name h)

-- The directory of a name in a clean rooted directory is that directory.
pub dir-trail :
    (parts : List Text) (name : Text)
    → All IsProper parts
    → Lacks b'/' name
    → dir (b'/' ∷ trail parts name) ≡ shown true parts
unfolding dir
dir-trail parts name h l =
    ap clean (
      up_to_last-append [] (trail parts name)
      ∙ ap (λ rest. b'/' ∷ rest) (up_to_last-trail parts name l))
    ∙ clean-dir parts h

add_part-All :
    (stack : List Text) (part : Text)
    → All IsProper stack
    → Lacks b'/' part
    → All IsProper (add_part true stack part)
unfolding add_part
add_part-All stack part h l =
    go stack h (Bool-cases (is_empty part || text_eq part (codes ".")))
      (Bool-cases (text_eq part (codes "..")))
  where
    below : (stack : List Text) → All IsProper stack → All IsProper (up true stack)
    below [] h = tt
    below (top ∷ stack) (p, h) = rw p.is_below h

    go :
        (stack : List Text)
        → All IsProper stack
        → ((is_empty part || text_eq part (codes ".")) ≡ true)
          ⊎ ((is_empty part || text_eq part (codes ".")) ≡ false)
        → (text_eq part (codes "..") ≡ true) ⊎ (text_eq part (codes "..") ≡ false)
        → All IsProper (add_part true stack part)
    go stack h (inl e) f = rw e h
    go stack h (inr e) (inl f) = rw (e, f) (below stack h)
    go stack h (inr e) (inr f) = rw (e, f) (record { is_part = e; is_below = f; lacks = l }, h)

add_parts-All :
    (parts stack : List Text)
    → All IsProper stack
    → All (Lacks b'/') parts
    → All IsProper (add_parts true stack parts)
unfolding add_parts
add_parts-All [] stack h l = h
add_parts-All (part ∷ parts) stack h (l, ls) =
    add_parts-All parts (add_part true stack part) (add_part-All stack part h l) ls

reversed-All :
    (stack parts : List Text)
    → All IsProper stack
    → All IsProper parts
    → All IsProper (reversed stack parts)
reversed-All [] parts h l = l
reversed-All (part ∷ stack) parts (p, h) l = reversed-All stack (part ∷ parts) h (p, l)

-- The parts of a clean rooted path are proper.
pub clean-IsProper :
    (s : Text) → (parts : List Text) × All IsProper parts × (clean (b'/' ∷ s) ≡ shown true parts)
unfolding clean
clean-IsProper s = (
  reversed (add_parts true [] (split b'/' (b'/' ∷ s))) [],
  reversed-All (add_parts true [] (split b'/' (b'/' ∷ s))) []
      (add_parts-All (split b'/' (b'/' ∷ s)) [] tt (split-All b'/' (b'/' ∷ s))) tt,
  refl,
)
