-- ===== src/Paths/Glob.antt =====
-- `_component_glob_match` of models.py, and the relation that it decides. `fnmatchcase`, the match of
-- one component, is the standard library's, and a parameter here.
use codex_claude_author_crit.Prelude.{
  ◌≡◌, refl, sym, ap, fun_ext, ◌∙◌, ◌↔◌, list_beq_iff, inl, inr, Bool, true, false, ◌&&◌, ◌||◌,
  List, [], ◌∷◌, ◌==◌, list_eq, nat_eq, if◌then◌else◌, arith, Bool-cases,
}
use codex_claude_author_crit.Prelude.Bytes.{Bytes, codes, slash, split}

-- `fnmatch.fnmatchcase(name, pattern)` on one path component.
pub record ComponentMatch : Type 0 where
  pub fnmatchcase : Bytes → Bytes → Bool

abbrev pub double_star : Bytes
double_star = codes "**"

pub is_empty : List Bytes → Bool
is_empty [] = true
is_empty (p ∷ ps) = false

pub starts_double : List Bytes → Bool
starts_double [] = false
starts_double (p ∷ ps) = p == double_star

-- `any(match(candidate_index, ...) for candidate_index in range(path_index, len(path_parts) + 1))`
pub any_suffix : (List Bytes → Bool) → List Bytes → Bool
any_suffix f [] = f []
any_suffix f (c ∷ cs) = f (c ∷ cs) || any_suffix f cs

module _ ⦃m : ComponentMatch⦄ where
  -- `match(path_index, pattern_index)`, on the components that are left. The inner `while`, which
  -- steps over a run of `**`, is the first branch: the next component is a `**` again.
  pub match_parts : List Bytes → List Bytes → Bool
  unfolding is_empty starts_double any_suffix
  match_parts [] path = is_empty path
  match_parts (p ∷ ps) [] =
      let deeper = match_parts ps in
      if p == double_star
      then (if starts_double ps then deeper [] else if is_empty ps then true else deeper [])
      else false
  match_parts (p ∷ ps) (c ∷ cs) =
      let deeper = match_parts ps in
      if p == double_star
      then (if starts_double ps
          then deeper (c ∷ cs)
          else if is_empty ps
          then true
          else any_suffix deeper (c ∷ cs))
      else m.fnmatchcase c p && deeper cs

  unfoldable pub component_glob_match : Bytes → Bytes → Bool
  unfolding match_parts
  component_glob_match path pattern = match_parts (split slash pattern) (split slash path)

  -- What a pattern means: `**` stands for any run of components, the empty one included, and any
  -- other component of the pattern for one component that `fnmatchcase` accepts.
  pub data Matches : List Bytes → List Bytes → Type 0 where
    done : Matches [] []
    skip : {p : Bytes} {ps cs : List Bytes} → p ≡ double_star → Matches ps cs → Matches (p ∷ ps) cs
    take :
        {p c : Bytes} {ps cs : List Bytes}
        → p ≡ double_star
        → Matches (p ∷ ps) cs
        → Matches (p ∷ ps) (c ∷ cs)
    one :
        {p c : Bytes} {ps cs : List Bytes}
        → (p == double_star) ≡ false
        → m.fnmatchcase c p ≡ true
        → Matches ps cs
        → Matches (p ∷ ps) (c ∷ cs)

  suffix-Matches :
      (p : Bytes) (ps : List Bytes)
      → p ≡ double_star
      → ((cs : List Bytes) → match_parts ps cs ≡ true → Matches ps cs)
      → (cs : List Bytes) → any_suffix (match_parts ps) cs ≡ true
      → Matches (p ∷ ps) cs
  unfolding any_suffix
  suffix-Matches p ps e sound [] h = skip e (sound [] h)
  suffix-Matches p ps e sound (c ∷ cs) h = elim (Bool-cases (match_parts ps (c ∷ cs))) [
    | inl now ↦ skip e (sound (c ∷ cs) now)
    | inr later ↦ take e (suffix-Matches p ps e sound cs (rw later at h))
  ]

  any_suffix_end : (cs : List Bytes) → any_suffix is_empty cs ≡ true
  unfolding any_suffix is_empty
  any_suffix_end [] = refl
  any_suffix_end (c ∷ cs) = any_suffix_end cs

  any_suffix_idem :
      (f : List Bytes → Bool) (cs : List Bytes) → any_suffix (any_suffix f) cs ≡ any_suffix f cs
  unfolding any_suffix
  any_suffix_idem f [] = refl
  any_suffix_idem f (c ∷ cs) = ground (arith, any_suffix_idem f cs)

  -- The shortcuts for a run of `**` and for a `**` at the end change no answer.
  match_parts_star :
      (p : Bytes) (ps cs : List Bytes)
      → (p == double_star) ≡ true
      → match_parts (p ∷ ps) cs ≡ any_suffix (match_parts ps) cs
  unfolding match_parts
  match_parts_star p [] [] e = rw e
  match_parts_star p [] (c ∷ cs) e = rw e (sym (any_suffix_end cs))
  match_parts_star p (q ∷ ps) cs e = elim (Bool-cases (q == double_star)) [
    | inl again ↦
        run p q ps cs e again
        ∙ match_parts_star q ps cs again
        ∙ sym (any_suffix_idem (match_parts ps) cs)
        ∙ ap (λ f. any_suffix f cs) (sym (fun_ext (λ r. match_parts_star q ps r again)))
    | inr last ↦ spread p q ps cs e last
  ]
    where
      run :
          (p q : Bytes) (ps cs : List Bytes)
          → (p == double_star) ≡ true
          → (q == double_star) ≡ true
          → match_parts (p ∷ q ∷ ps) cs ≡ match_parts (q ∷ ps) cs
      run p q ps [] e again = rw (e, again)
      run p q ps (c ∷ cs) e again = rw (e, again)

      spread :
          (p q : Bytes) (ps cs : List Bytes)
          → (p == double_star) ≡ true
          → (q == double_star) ≡ false
          → match_parts (p ∷ q ∷ ps) cs ≡ any_suffix (match_parts (q ∷ ps)) cs
      spread p q ps [] e last = rw (e, last)
      spread p q ps (c ∷ cs) e last = rw (e, last)

  -- A pattern that the code accepts is matched.
  match_parts-Matches : (ps cs : List Bytes) → match_parts ps cs ≡ true → Matches ps cs
  unfolding match_parts
  match_parts-Matches [] [] h = done
  match_parts-Matches [] (c ∷ cs) h = cc
  match_parts-Matches (p ∷ ps) cs h = elim (Bool-cases (p == double_star)) [
    | inl star ↦
        suffix-Matches p ps ((list_beq_iff p double_star).0 star) (match_parts-Matches ps) cs
          (sym (match_parts_star p ps cs star) ∙ h)
    | inr plain ↦ plain-Matches p ps cs plain (match_parts-Matches ps) h
  ]
    where
      plain-Matches :
          (p : Bytes) (ps cs : List Bytes)
          → (p == double_star) ≡ false
          → ((cs : List Bytes) → match_parts ps cs ≡ true → Matches ps cs)
          → match_parts (p ∷ ps) cs ≡ true
          → Matches (p ∷ ps) cs
      plain-Matches p ps [] e sound h = ground arith
      plain-Matches p ps (c ∷ cs) e sound h = one e (ground arith) (sound cs (ground arith))

  any_suffix_here : (f : List Bytes → Bool) (cs : List Bytes) → f cs ≡ true → any_suffix f cs ≡ true
  unfolding any_suffix
  any_suffix_here f [] h = h
  any_suffix_here f (c ∷ cs) h = rw h

  Matches-match_parts : {ps cs : List Bytes} → Matches ps cs → match_parts ps cs ≡ true
  unfolding match_parts any_suffix
  Matches-match_parts done = refl
  Matches-match_parts (skip {p} {ps} {cs} e d) =
      match_parts_star p ps cs ((list_beq_iff p double_star).1 e)
      ∙ any_suffix_here (match_parts ps) cs (Matches-match_parts d)
  Matches-match_parts (take {p} {c} {ps} {cs} e d) =
      let star = (list_beq_iff p double_star).1 e in
      let later = sym (match_parts_star p ps cs star) ∙ Matches-match_parts d in
      match_parts_star p ps (c ∷ cs) star ∙ ground (arith, later)
  Matches-match_parts (one e f d) = rw (e, f) (Matches-match_parts d)

  -- The matcher accepts a path exactly when the components of the pattern match those of the
  -- path, with `**` standing for any run of components.
  pub component_glob_match_iff :
      (path pattern : Bytes)
      → (component_glob_match path pattern ≡ true)
        ↔ Matches (split slash pattern) (split slash path)
  unfolding component_glob_match
  component_glob_match_iff path pattern =
      (match_parts-Matches (split slash pattern) (split slash path), Matches-match_parts)
