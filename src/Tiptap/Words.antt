-- ===== src/Tiptap/Words.antt =====
-- `s.split()` and `" ".join(words)`, and that the second undoes the first on words.
use fastapi_base.Prelude.{
  ℕ, ◌≡◌, refl, sym, ◌∙◌, Bool, true, false, List, [], ◌∷◌, ◌++◌, Text, All, if◌then◌else◌,
  Bool-cases, inl, inr,
}
use mathlib.Core.List.{append-nil, append_assoc}

-- the word that ends here, if there is one
abbrev pub flush : Text → List Text
flush [] = []
flush (c ∷ w) = (c ∷ w) ∷ []

-- `" ".join(words)`
abbrev pub join : List Text → Text
join [] = []
join (w ∷ []) = w
join (w ∷ v ∷ ws) = w ++ 32 ∷ join (v ∷ ws)

module _ (is_space : ℕ → Bool) where
  -- the words of `s`, with `w` read of the first
  unfoldable pub split_from : Text → Text → List Text
  split_from w [] = flush w
  split_from w (c ∷ s) =
      let next = split_from [] s in
      let longer = split_from (w ++ c ∷ []) s in if is_space c then flush w ++ next else longer

  -- `s.split()`
  unfoldable pub split : Text → List Text
  unfolding split_from
  split s = split_from [] s

  abbrev pub IsInside : Text → Type 0
  IsInside w = All (λ c. is_space c ≡ false) w

  -- A word is not empty and has no space in it.
  abbrev pub IsWord : Text → Type 0
  IsWord [] = true ≡ false
  IsWord (c ∷ w) = IsInside (c ∷ w)

  append-IsInside : (w : Text) (c : ℕ) → IsInside w → is_space c ≡ false → IsInside (w ++ c ∷ [])
  append-IsInside [] c h k = (k, tt)
  append-IsInside (d ∷ w) c h k = (h.0, append-IsInside w c h.1 k)

  flush-IsWord : (w : Text) → IsInside w → All IsWord (flush w)
  flush-IsWord [] h = tt
  flush-IsWord (c ∷ w) h = (h, tt)

  append-IsWord : (vs ws : List Text) → All IsWord vs → All IsWord ws → All IsWord (vs ++ ws)
  append-IsWord [] ws h k = k
  append-IsWord (v ∷ vs) ws h k = (h.0, append-IsWord vs ws h.1 k)

  split_from-IsWord : (w s : Text) → IsInside w → All IsWord (split_from w s)
  unfolding split_from
  split_from-IsWord w [] h = flush-IsWord w h
  split_from-IsWord w (c ∷ s) h = elim (Bool-cases (is_space c)) [
    | inl e ↦
        rw e
          (append-IsWord (flush w) (split_from [] s) (flush-IsWord w h) (split_from-IsWord [] s tt))
    | inr e ↦ rw e (split_from-IsWord (w ++ c ∷ []) s (append-IsInside w c h e))
  ]

  -- Reading a word to its end.
  split_from-word : (w v s : Text) → IsInside v → split_from w (v ++ s) ≡ split_from (w ++ v) s
  unfolding split_from
  split_from-word w [] s h = rw (append-nil w) refl
  split_from-word w (c ∷ v) s h =
      rw h.0 (split_from-word (w ++ c ∷ []) v s h.1 ∙ rw (append_assoc w (c ∷ []) v) refl)

  -- A space ends a word.
  pub split_from-append :
      (w s t : Text) (c : ℕ)
      → is_space c ≡ true
      → split_from w (s ++ c ∷ t) ≡ split_from w s ++ split_from [] t
  unfolding split_from
  split_from-append w [] t c space = rw space refl
  split_from-append w (d ∷ s) t c space = elim (Bool-cases (is_space d)) [
    | inl e ↦
        rw (e, split_from-append [] s t c space)
          (sym (append_assoc (flush w) (split_from [] s) (split_from [] t)))
    | inr e ↦ rw e (split_from-append (w ++ d ∷ []) s t c space)
  ]

  module _ (space : is_space 32 ≡ true) where
    split-join : (ws : List Text) → All IsWord ws → split_from [] (join ws) ≡ ws
    unfolding split_from
    split-join [] h = refl
    split-join ([] ∷ ws) h = cc
    split-join ((c ∷ w) ∷ []) h =
        let read = split_from-word [] (c ∷ w) [] h.0 in rw (append-nil w) at read
    split-join ((c ∷ w) ∷ v ∷ ws) h =
        split_from-word [] (c ∷ w) (32 ∷ join (v ∷ ws)) h.0
        ∙ rw (space, split-join (v ∷ ws) h.1) refl

    -- Collapsing the runs of spaces of a text keeps its words.
    pub split-collapse : (s : Text) → split (join (split s)) ≡ split s
    unfolding split
    split-collapse s = split-join (split_from [] s) (split_from-IsWord [] s tt)
