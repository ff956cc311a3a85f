-- ===== src/Runner/Secrets/Parts.antt =====
-- What `_json_tree_contains_known_secret` of runner.py has looked at when it answers `False`.
use mathlib.Core.List.{reverse-cons}
use codex_claude_author_crit.Prelude.{
  ℕ, zero, suc, String, false, ◌≡◌, subst, ap, ◌⊎◌, inl, inr, List, [], ◌∷◌, ◌++◌, map, reverse, ok,
  arith, All, Bool-cases,
}
use codex_claude_author_crit.Prelude.Bytes.{Bytes}
use codex_claude_author_crit.Prelude.Text.{utf8}
use codex_claude_author_crit.Critic.Json.{Json, str, arr, obj, Items, Fields, items, fields}
use codex_claude_author_crit.Validation.Declassify.{
  Base64, KnownSecret, raw_log_contains_known_secret,
}
use codex_claude_author_crit.Validation.Declassify.Shown.{
  Shows, raw_log_contains_known_secret_found,
}
use codex_claude_author_crit.Runner.Secrets.{
  Tree, Trees, json, raw, tuple, trees, keys_json, values_json, max_visited, children, leaf_hit,
  scan, json_tree_contains_known_secret,
}

-- A member of a list.
abbrev pub In : {A : Type 0} → A → List A → Type 0
In t [] = ⊥
In t (u ∷ us) = (u ≡ t) ⊎ In t us

-- `Bears t bs`: a text whose UTF-8 form is `bs`, or the bytes `bs` themselves, stand in the value, as the
-- value itself, an item of an array or of a tuple, a key or a value of an object, at any depth.
pub data Bears : Tree → Bytes → Type 0 where
  text : (s : String) → Bears (json (str s)) (utf8 s)
  bytes : (bs : Bytes) → Bears (raw bs) bs
  item :
      {bs : Bytes} (js : Items) (j : Json)
      → In j (items js)
      → Bears (json j) bs
      → Bears (json (arr js)) bs
  key :
      (fs : Fields) (k : String) (j : Json) → In (k, j) (fields fs) → Bears (json (obj fs)) (utf8 k)
  value :
      {bs : Bytes} (fs : Fields) (k : String) (j : Json)
      → In (k, j) (fields fs)
      → Bears (json j) bs
      → Bears (json (obj fs)) bs
  element :
      {bs : Bytes} (ts : Trees) (t : Tree) → In t (trees ts) → Bears t bs → Bears (tuple ts) bs

In-front : {A : Type 0} (x : A) (xs ys : List A) → In x xs → In x (xs ++ ys)
In-front x [] ys m = absurd m
In-front x (a ∷ xs) ys (inl e) = inl e
In-front x (a ∷ xs) ys (inr m) = inr (In-front x xs ys m)

In-back : {A : Type 0} (x : A) (xs ys : List A) → In x ys → In x (xs ++ ys)
In-back x [] ys m = m
In-back x (a ∷ xs) ys m = inr (In-back x xs ys m)

In-reverse : {A : Type 0} (x : A) (xs : List A) → In x xs → In x (reverse xs)
In-reverse x [] m = absurd m
In-reverse x (a ∷ xs) (inl e) = rw (reverse-cons a xs) (In-back x (reverse xs) (a ∷ []) (inl e))
In-reverse x (a ∷ xs) (inr m) =
    rw (reverse-cons a xs) (In-front x (reverse xs) (a ∷ []) (In-reverse x xs m))

In-map : {A B : Type 0} (f : A → B) (x : A) (xs : List A) → In x xs → In (f x) (map f xs)
In-map f x [] m = absurd m
In-map f x (a ∷ xs) (inl e) = inl (ap f e)
In-map f x (a ∷ xs) (inr m) = inr (In-map f x xs m)

module _ ⦃b : Base64⦄ (secrets : List KnownSecret) where
  abbrev Clean : Tree → Type 0
  Clean t = (bs : Bytes) → Bears t bs → raw_log_contains_known_secret bs secrets ≡ false

  All-In : (ts : List Tree) → All Clean ts → (t : Tree) → In t ts → Clean t
  All-In [] h t m = absurd m
  All-In (u ∷ us) h t (inl e) = subst Clean e h.0
  All-In (u ∷ us) h t (inr m) = All-In us h.1 t m

  All-back : (xs ys : List Tree) → All Clean (xs ++ ys) → All Clean ys
  All-back [] ys h = h
  All-back (x ∷ xs) ys h = All-back xs ys h.1

  -- A value that holds no secret itself, and whose children are clean, is clean.
  Clean-children :
      (t : Tree) → leaf_hit secrets t ≡ false → ((c : Tree) → In c (children t) → Clean c) → Clean t
  unfolding leaf_hit children
  Clean-children t h k bs (text s) = h
  Clean-children t h k bs (bytes content) = h
  Clean-children t h k bs (item js j m p) =
      k (json j) (In-reverse (json j) (map json (items js)) (In-map json j (items js) m)) bs p
  Clean-children t h k bs (key fs name j m) =
      k (json (str name))
        (In-reverse (json (str name)) (keys_json (fields fs) ++ values_json (fields fs)) (
          In-front (json (str name)) (keys_json (fields fs)) (values_json (fields fs))
            (In-map (λ kv. json (str kv.0)) (name, j) (fields fs) m)))
        (utf8 name) (text name)
  Clean-children t h k bs (value fs name j m p) =
      k (json j)
        (In-reverse (json j) (keys_json (fields fs) ++ values_json (fields fs)) (
          In-back (json j) (keys_json (fields fs)) (values_json (fields fs))
            (In-map (λ kv. json kv.1) (name, j) (fields fs) m)))
        bs p
  Clean-children t h k bs (element ts u m p) = k u (In-reverse u (trees ts) m) bs p

  scan-Clean : (left : ℕ) (stack : List Tree) → scan secrets left stack ≡ ok false → All Clean stack
  unfolding scan
  scan-Clean left [] h = tt
  scan-Clean zero (t ∷ stack) h = cc
  scan-Clean (suc left) (t ∷ stack) h = elim (Bool-cases (leaf_hit secrets t)) [
    | inl hit ↦ absurd (ground arith)
    | inr miss ↦
        let rest = scan-Clean left (children t ++ stack) (ground arith) in
        (
          Clean-children t miss
              (λ c m. All-In (children t ++ stack) rest c (In-front c (children t) stack m)),
          All-back (children t) stack rest,
        )
  ]

  -- When the scan of a value answers that it holds no secret, no text (as its UTF-8 bytes) and no bytes
  -- that stand in the value hold an encoding of a known secret: not the value itself, and no item of an
  -- array or a tuple, key or value of an object inside it, at any depth.
  pub json_tree_contains_known_secret-Clean :
      (t : Tree) (bs : Bytes)
      → json_tree_contains_known_secret secrets t ≡ ok false
      → Bears t bs
      → ¬ Shows bs secrets
  unfolding json_tree_contains_known_secret
  json_tree_contains_known_secret-Clean t bs h p shows =
      let clean = (scan-Clean max_visited (t ∷ []) h).0 bs p in
      let found = raw_log_contains_known_secret_found bs secrets shows in cc
