-- ===== src/Prelude/Text/Laws.antt =====
-- Laws of the text functions: cutting what was joined, and where a separator stands.
use package.fsspec_db.Prelude.Text.{
  Text, codes, text_eq, text_eq_iff, push_head, split, join, strip_prefix, split_once, rsplit_once,
  is_whitespace, trim_start, trim_end, trim,
}
use package.fsspec_db.Prelude.{
  ℕ, ◌≡◌, refl, ap, ◌≢◌, true, false, not, none, some, List, [], ◌∷◌, ◌++◌, arith, ◌&&◌,
  if◌then◌else◌, is_empty, keep, All, Lacks,
}

pub text_eq_refl : (s : Text) → text_eq s s ≡ true
text_eq_refl s = (text_eq_iff s s).1 refl

module _ (sep : ℕ) where
  split_of_Lacks : (s : Text) → Lacks sep s → split sep s ≡ s ∷ []
  unfolding split
  split_of_Lacks [] h = refl
  split_of_Lacks (c ∷ s) h = ground (arith, split_of_Lacks s)

  pub split-append : (s t : Text) → Lacks sep s → split sep (s ++ sep ∷ t) ≡ s ∷ split sep t
  unfolding split
  split-append [] t h = ground arith
  split-append (c ∷ s) t h = ground (arith, split-append s t)

  -- Splitting a join gives the parts back, if none holds the separator.
  pub split-join :
      (p : Text) (ps : List Text)
      → All (Lacks sep) (p ∷ ps)
      → split sep (join (sep ∷ []) (p ∷ ps)) ≡ p ∷ ps
  unfolding join
  split-join p [] (h, _) = split_of_Lacks p h
  split-join p (q ∷ ps) (h, hs) = rw (split-append p _ h) (ap (λ r. p ∷ r) (split-join q ps hs))

  pub split_once_of_Lacks : (s : Text) → Lacks sep s → split_once (sep ∷ []) s ≡ none
  unfolding split_once
  split_once_of_Lacks [] h = refl
  split_once_of_Lacks (c ∷ s) h = ground (arith, split_once_of_Lacks s)

  pub split_once-append :
      (s t : Text) → Lacks sep s → split_once (sep ∷ []) (s ++ sep ∷ t) ≡ some (s, t)
  unfolding split_once
  split_once-append [] t h = ground arith
  split_once-append (c ∷ s) t h = ground (arith, split_once-append s t)

  pub rsplit_once_of_Lacks : (s : Text) → Lacks sep s → rsplit_once sep s ≡ none
  unfolding rsplit_once
  rsplit_once_of_Lacks [] h = refl
  rsplit_once_of_Lacks (c ∷ s) h = ground (arith, rsplit_once_of_Lacks s)

  pub rsplit_once-append : (s t : Text) → Lacks sep t → rsplit_once sep (s ++ sep ∷ t) ≡ some (s, t)
  unfolding rsplit_once
  rsplit_once-append [] t h = ground (arith, rsplit_once_of_Lacks t h)
  rsplit_once-append (c ∷ s) t h = ground (arith, rsplit_once-append s t h)

  split-Lacks : (s : Text) → All (Lacks sep) (split sep s)
  unfolding split
  split-Lacks [] = (tt, tt)
  split-Lacks (c ∷ s) = ground (arith, push_lem c (split sep s), split-Lacks s)
    where
      push_lem :
          (d : ℕ) (ps : List Text)
          → ¬ (d ≡ sep)
          → All (Lacks sep) ps
          → All (Lacks sep) (push_head d ps)
      push_lem d [] n h = ((n, tt), tt)
      push_lem d (p ∷ ps) n (h, hs) = ((n, h), hs)

-- The parts that a path is made of: what a split leaves without its empty parts.
pub keep-split-Lacks :
    (sep : ℕ) (s : Text)
    → All (λ p. (p ≢ []) × Lacks sep p) (keep (λ p. not (is_empty p)) (split sep s))
keep-split-Lacks sep s = go (split sep s) (split-Lacks sep s)
  where
    go :
        (ps : List Text)
        → All (Lacks sep) ps
        → All (λ p. (p ≢ []) × Lacks sep p) (keep (λ p. not (is_empty p)) ps)
    go [] h = tt
    go ([] ∷ ps) (h, hs) = go ps hs
    go ((c ∷ p) ∷ ps) (h, hs) = (((λ e. cc), h), go ps hs)

-- The text does not end in whitespace.
abbrev pub EndsSolid : Text → Type 0
EndsSolid [] = Unit
EndsSolid (c ∷ []) = is_whitespace c ≡ false
EndsSolid (c ∷ d ∷ s) = EndsSolid (d ∷ s)

trim_end_step :
    (c : ℕ) (s : Text)
    → trim_end (c ∷ s) ≡ (if is_whitespace c && is_empty (trim_end s) then [] else c ∷ trim_end s)
unfolding trim_end
trim_end_step c s = refl

pub trim_end_of_EndsSolid : (s : Text) → EndsSolid s → trim_end s ≡ s
trim_end_of_EndsSolid [] h = unfold trim_end in refl
trim_end_of_EndsSolid (c ∷ []) h = unfold trim_end in ground arith
trim_end_of_EndsSolid (c ∷ d ∷ s) h =
    ground (arith, trim_end_step c (d ∷ s), trim_end_of_EndsSolid (d ∷ s) h)

pub EndsSolid-append : (s t : Text) → t ≢ [] → EndsSolid t → EndsSolid (s ++ t)
EndsSolid-append [] t n h = h
EndsSolid-append (c ∷ []) [] n h = absurd (n refl)
EndsSolid-append (c ∷ []) (d ∷ t) n h = h
EndsSolid-append (c ∷ d ∷ s) t n h = EndsSolid-append (d ∷ s) t n h

pub trim_of_EndsSolid :
    (c : ℕ) (s : Text) → is_whitespace c ≡ false → EndsSolid (c ∷ s) → trim (c ∷ s) ≡ c ∷ s
unfolding trim trim_start
trim_of_EndsSolid c s w h = rw (w, trim_start) (trim_end_of_EndsSolid (c ∷ s) h)

-- `://` stands nowhere in the text.
abbrev pub NoScheme : Text → Type 0
NoScheme [] = Unit
NoScheme (c ∷ s) = (strip_prefix (codes "://") (c ∷ s) ≡ none) × NoScheme s

pub split_once_of_NoScheme : (s : Text) → NoScheme s → split_once (codes "://") s ≡ none
unfolding split_once
split_once_of_NoScheme [] h = refl
split_once_of_NoScheme (c ∷ s) (h, hs) = ground (arith, split_once_of_NoScheme s hs)

-- No two slashes stand side by side.
abbrev pub NoDouble : Text → Type 0
NoDouble [] = Unit
NoDouble (c ∷ []) = Unit
NoDouble (c ∷ d ∷ s) = ((c ≡ b'/') → d ≢ b'/') × NoDouble (d ∷ s)

pub NoDouble-NoScheme : (s : Text) → NoDouble s → NoScheme s
unfolding strip_prefix
NoDouble-NoScheme [] h = tt
NoDouble-NoScheme (c ∷ []) h = ground arith
NoDouble-NoScheme (c ∷ d ∷ []) h = ground arith
NoDouble-NoScheme (c ∷ d ∷ e ∷ s) h = (ground arith, NoDouble-NoScheme (d ∷ e ∷ s) h.1)

-- Behind a text with no `?`, a query marks no scheme that reaches back into the text.
pub NoScheme-append : (s t : Text) → NoScheme s → NoScheme t → NoScheme (s ++ b'?' ∷ t)
unfolding strip_prefix
NoScheme-append [] t h k = (ground arith, k)
NoScheme-append (c ∷ []) t h k = (ground arith, NoScheme-append [] t tt k)
NoScheme-append (c ∷ d ∷ []) t h k = (ground arith, NoScheme-append (d ∷ []) t h.1 k)
NoScheme-append (c ∷ d ∷ e ∷ s) t h k = (ground arith, NoScheme-append (d ∷ e ∷ s) t h.1 k)
