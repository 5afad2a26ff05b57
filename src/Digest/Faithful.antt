-- ===== src/Digest/Faithful.antt =====
-- Digest of canonical/canonical.go: two manifests have one digest exactly when they say the same.
use veduta.Prelude.{
  ◌≡◌, sym, ap, ◌∙◌, ◌↔◌, [], Bytes, Result, ok, ◌>>=◌, >>=-eq-ok, ok-injective, String,
}
use mathlib.Core.Path.{subst}
use veduta.Digest.Value.{Value, DigestError}
use veduta.Digest.Normal.{normalise}
use veduta.Digest.Text.{Panic, serialise, hashed, digest}
use veduta.Digest.Doc.{Doc, doc_of}
use veduta.Digest.Same.{Same, same_trans, Same-sym}
use veduta.Digest.Forgets.{digest-Same}
use veduta.Digest.Shown.{show-injective}
use veduta.Digest.Meaning.{alone, serialise-doc_of}
use veduta.Digest.Written.{IsValid, written}
use veduta.Digest.Read.{Same-written}

-- The text that Digest hashes.
abbrev pub text_of : Value → Result DigestError (Result Panic Bytes)
text_of v = normalise [] v >>= λ n. ok (serialise n)

hash_of :
    (sha : Bytes → String) (v : Value) (s : Bytes)
    → text_of v ≡ ok (ok s)
    → digest sha v ≡ ok (sha s)
unfolding digest
hash_of sha v s h =
    let (n, e, k) = >>=-eq-ok (normalise [] v) _ h in rw e (ap (hashed sha) (ok-injective k))

-- A valid value says what its text shows.
says :
    (v : Value) (s : Bytes)
    → IsValid v
    → text_of v ≡ ok (ok s)
    → (d : Doc) × Same [] v (written d) × (alone d ≡ s)
says v s valid h =
    let (n, e, k) = >>=-eq-ok _ _ h in
    let (d, f, t) = >>=-eq-ok (doc_of n) _ (sym (serialise-doc_of n) ∙ ok-injective k) in
    (d, Same-written [] v n d valid e f, ok-injective t)

-- Two values that are valid UTF-8 with no key twice in a map, and that both have a canonical text,
-- have one digest exactly when they say the same, for a hash that tells those two texts apart: the
-- same apart from the order of a map's keys, the order and repeats of the arrays that are read as
-- sets, and the types and spellings of integers.
pub digest_iff :
    (sha : Bytes → String) (v w : Value) (s t : Bytes)
    → IsValid v
    → IsValid w
    → text_of v ≡ ok (ok s)
    → text_of w ≡ ok (ok t)
    → (sha s ≡ sha t → s ≡ t)
    → (digest sha v ≡ digest sha w) ↔ Same [] v w
digest_iff sha v w s t valid valid' p q injective = (same→, →same)
  where
    same→ : digest sha v ≡ digest sha w → Same [] v w
    same→ h =
        let (d, a, f) = says v s valid p in
        let (e, b, g) = says w t valid' q in
        let texts : s ≡ t =
          injective (ok-injective (sym (hash_of sha v s p) ∙ (h ∙ hash_of sha w t q))) in
        let one : d ≡ e = (show-injective d e [] [] tt tt (f ∙ (texts ∙ sym g))).0 in
        same_trans [] v (written d) w a
          (subst (λ x. Same [] (written x) w) (sym one) (Same-sym [] w (written e) b))

    →same : Same [] v w → digest sha v ≡ digest sha w
    →same r = hash_of sha v s p ∙ sym (digest-Same sha v w (sha s) r (hash_of sha v s p))
