-- ===== src/Protocol/Paths.antt =====
-- The signed path of a command tells its id, its type and the second in which it expires
-- (internal/protocol/protocol.go).
use iflygo.Prelude.{ℕ, ◌+◌, ◌/◌, ◌≡◌, refl, Option, none, some, [], ◌∷◌, ap, arith, inl, inr}
use iflygo.Text.{Text}
use iflygo.Text.Pieces.{count, joined, count-joined, joined-same, count-decimal}
use iflygo.Agentgw.Rows.{second}
use iflygo.Protocol.{Command, unix_text, signed_path}

unix_text-bars : (t : Option ℕ) → count b'|' (unix_text t) ≡ 0
unfolding count
unix_text-bars none = refl
unix_text-bars (some t) = count-decimal b'|' (t / second) (inr (omega arith))

unix_text-newlines : (t : Option ℕ) → count 10 (unix_text t) ≡ 0
unfolding count
unix_text-newlines none = refl
unix_text-newlines (some t) = count-decimal 10 (t / second) (inl (omega arith))

bar_not_newline : (s t : Text) → count 10 (joined b'|' s t) ≡ count 10 s + count 10 t
unfolding count
bar_not_newline [] t = omega arith
bar_not_newline (c ∷ s) t = omega (arith, bar_not_newline s t)

module _ {R : Type 0} where
  count-signed_path :
      (c : Command R) → count b'|' (signed_path c) ≡ count b'|' c.id + count b'|' c.type + 2
  unfolding signed_path
  count-signed_path c = omega (
    arith,
    unix_text-bars c.expire_at,
    count-joined b'|' c.id (joined b'|' c.type (unix_text c.expire_at)),
    count-joined b'|' c.type (unix_text c.expire_at),
  )

  pub signed_path-newlines :
      (c : Command R) → count 10 c.id ≡ 0 → count 10 c.type ≡ 0 → count 10 (signed_path c) ≡ 0
  unfolding signed_path
  signed_path-newlines c h k = omega (
    arith,
    unix_text-newlines c.expire_at,
    bar_not_newline c.id (joined b'|' c.type (unix_text c.expire_at)),
    bar_not_newline c.type (unix_text c.expire_at),
  )

  -- Any command with the path of one whose id and type have no bar in them has the same parts.
  pub signed_path-same :
      (c f : Command R)
      → count b'|' c.id ≡ 0
      → count b'|' c.type ≡ 0
      → signed_path f ≡ signed_path c
      → (f.id ≡ c.id) × (f.type ≡ c.type) × (unix_text f.expire_at ≡ unix_text c.expire_at)
  unfolding signed_path
  signed_path-same c f h k same =
      let n = ap (count b'|') same in
      let nc = count-signed_path c in
      let nf = count-signed_path f in
      let (r1, t1) = joined-same b'|' f.id c.id _ _ (omega arith) h same in
      let (r2, t2) = joined-same b'|' f.type c.type _ _ (omega arith) k t1 in (r1, r2, t2)
