-- ===== src/Manifest/Canonical/Atoms.antt =====
-- Atoms of the canonical bytes can be read off the front of what they begin.
use codex_claude_author_crit.Prelude.{
  ◌^◌, ◌<◌, ◌≡◌, refl, sym, ap, ◌∙◌, List, [], ◌∷◌, ◌++◌, length, nat_eq, ok, >>=-eq-ok,
  ok-injective, arith,
}
use mathlib.Core.List.{append_assoc}
use codex_claude_author_crit.Prelude.Bytes.{Bytes}
use codex_claude_author_crit.Prelude.Numerals.{
  big_endian, length-big_endian, big_endian-injective, append-injective, Fits-u64,
}
use codex_claude_author_crit.Manifest.Canonical.{length_prefix, encode_atoms}

length_prefix_lem :
    (v : Bytes) {x : Bytes}
    → length_prefix v ≡ ok x
    → (length v < 2 ^ 64) × (x ≡ big_endian 8 (length v) ++ v)
unfolding length_prefix
length_prefix_lem v h = ground arith

-- An atom can be read off the front of what it begins.
length_prefix-injective :
    (v w us vs : Bytes) {x y : Bytes}
    → length_prefix v ≡ ok x
    → length_prefix w ≡ ok y
    → x ++ us ≡ y ++ vs
    → (v ≡ w) × (us ≡ vs)
length_prefix-injective v w us vs h k e =
    let (small, x_is) = length_prefix_lem v h in
    let (small', y_is) = length_prefix_lem w k in
    let e' : big_endian 8 (length v) ++ (v ++ us) ≡ big_endian 8 (length w) ++ (w ++ vs) =
      sym (append_assoc _ v us)
      ∙ ap (λ z. z ++ us) (sym x_is)
      ∙ e
      ∙ ap (λ z. z ++ vs) y_is
      ∙ append_assoc _ w vs in
    let (heads, rests) =
      append-injective (big_endian 8 (length v)) (big_endian 8 (length w)) (v ++ us) (w ++ vs)
        (length-big_endian 8 (length v) ∙ sym (length-big_endian 8 (length w))) e' in
    append-injective v w us vs
      (big_endian-injective 8 (length v) (length w) (Fits-u64 _ small) (Fits-u64 _ small') heads)
      rests

pub encode_atoms-injective :
    (as' bs : List Bytes) (us vs : Bytes) {x y : Bytes}
    → length as' ≡ length bs
    → encode_atoms as' ≡ ok x
    → encode_atoms bs ≡ ok y
    → x ++ us ≡ y ++ vs
    → (as' ≡ bs) × (us ≡ vs)
unfolding encode_atoms
encode_atoms-injective [] [] us vs l h k e =
    (refl, ap (λ z. z ++ us) (ok-injective h) ∙ e ∙ ap (λ z. z ++ vs) (sym (ok-injective k)))
encode_atoms-injective [] (b ∷ bs) us vs l h k e = absurd (omega (arith, l))
encode_atoms-injective (a ∷ as') [] us vs l h k e = absurd (omega (arith, l))
encode_atoms-injective (a ∷ as') (b ∷ bs) us vs l h k e =
    let (p, p_ok, h1) = >>=-eq-ok (length_prefix a) _ h in
    let (q, q_ok, h2) = >>=-eq-ok (encode_atoms as') _ h1 in
    let (r, r_ok, k1) = >>=-eq-ok (length_prefix b) _ k in
    let (s, s_ok, k2) = >>=-eq-ok (encode_atoms bs) _ k1 in
    let e' : p ++ (q ++ us) ≡ r ++ (s ++ vs) =
      sym (append_assoc p q us)
      ∙ ap (λ z. z ++ us) (ok-injective h2)
      ∙ e
      ∙ ap (λ z. z ++ vs) (sym (ok-injective k2))
      ∙ append_assoc r s vs in
    let (first, e1) = length_prefix-injective a b (q ++ us) (s ++ vs) p_ok r_ok e' in
    let (others, rests) = encode_atoms-injective as' bs us vs (omega (arith, l)) q_ok s_ok e1 in
    (cc, rests)
