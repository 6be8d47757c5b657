-- ===== src/Transaction/MultiSig/Laws.antt =====
-- What a `MultiSigPayload` must satisfy, and the laws of its serialization
-- (transaction/payload/multisig.rs of xelis_common/src).
use blockchain_xelis.Prelude.{
  ℕ, ◌%◌, ◌≤◌, ◌≡◌, ◌≢◌, refl, sym, true, false, not, ◌||◌, if◌then◌else◌, Bool-cases, inl, inr, ap,
  List, [], ◌++◌, All, length, arith, ltb, ◌==◌,
}
use mathlib.Core.List.{append-nil}
use blockchain_xelis.Serializer.Reader.Triples.{
  Reads, Reads-eq, Reads-value, Reads-pure, Reads-bind, Reads-u8, Yields-pure, Yields-bind,
  Yields-if, Yields-throw, Yields-u8, IsByte, OfLength,
}
use blockchain_xelis.Serializer.Reader.{invalid_value}
use blockchain_xelis.Serializer.Trait.{IsStrict}
use blockchain_xelis.Serializer.Numbers.{write_u8}
use blockchain_xelis.Serializer.Arrays.{array-IsLawful, array-IsStrict, eq_bytes}
use blockchain_xelis.Serializer.Containers.Items.{write_items, size-items, size_items}
use blockchain_xelis.Serializer.Containers.Unique.{IsDistinct, AreNew-nil, Reads-unique, Yields-set}
use blockchain_xelis.Transaction.MultiSig.{
  key, MultiSigPayload, write_payload, read_payload, read_threshold, read_participants,
  size_payload, payload,
}

-- No participants come with threshold 0; otherwise there are 1 to 255 distinct ones.
pub record IsPayload (p : MultiSigPayload) : Type 0 where
  pub threshold : IsByte p.threshold
  pub deletes : p.threshold ≡ 0 → p.participants ≡ []
  pub some_key : p.threshold ≢ 0 → 1 ≤ length p.participants
  pub keys : All (OfLength 32) p.participants
  pub distinct : IsDistinct eq_bytes p.participants
  pub few : length p.participants ≤ 255

-- What `write_payload` writes after the threshold.
abbrev body : MultiSigPayload → List ℕ
body p =
    if not (p.threshold == 0)
    then write_u8 (length p.participants % 256) ++ write_items key p.participants
    else []

no_key : (p : MultiSigPayload) → IsPayload p → p.threshold ≡ 0 → [] ≡ p.participants
no_key p h z = sym (h.deletes z)

Reads-participants :
    (p : MultiSigPayload)
    → IsPayload p
    → 1 ≤ length p.participants
    → Reads
        (read_participants p.threshold (length p.participants))
        (write_items key p.participants)
        p
unfolding read_participants
Reads-participants p h some_key =
    let test : ((length p.participants == 0) || ltb 255 (length p.participants)) ≡ false =
      ground (arith, h.few) in
    rw test (
      Reads-eq
        (Reads-bind _
          (Reads-unique eq_bytes invalid_value (array-IsLawful 32) [] p.participants h.keys
            h.distinct (AreNew-nil eq_bytes p.participants))
          (Reads-pure p))
        (append-nil _))

Reads-threshold :
    (p : MultiSigPayload) → IsPayload p → Reads (read_threshold p.threshold) (body p) p
unfolding read_threshold
Reads-threshold p h = elim (Bool-cases (p.threshold == 0)) [
  | inl z ↦ rw z (
      Reads-value (Reads-pure (record { threshold = p.threshold; participants = [] }))
        (ap (λ (ps : List (List ℕ)). record p { participants = ps }) (no_key p h (ground arith))))
  | inr nz ↦
      let few : length p.participants % 256 ≡ length p.participants = omega (arith, h.few) in
      rw nz (
        Reads-bind _ (Reads-u8 (length p.participants % 256))
          (rw few (Reads-participants p h (h.some_key (ground arith)))))
]

-- A payload is read back from its serialization.
pub Reads-payload : (p : MultiSigPayload) → IsPayload p → Reads read_payload (write_payload p) p
unfolding read_payload write_payload
Reads-payload p h = Reads-bind _ (Reads-u8 p.threshold) (Reads-threshold p h)

pub payload-IsStrict : IsStrict payload IsPayload
unfolding read_payload write_payload
payload-IsStrict = record {
  yields = Yields-bind Yields-u8 λ t xs h.
      unfold read_threshold in
      Yields-if (t == 0) _ _
        (λ z. Yields-pure _ (
          record {
            threshold = h.0;
            deletes = λ _. refl;
            some_key = λ n. absurd (n (ground arith));
            keys = tt;
            distinct = tt;
            few = omega arith;
          },
          simp (h.1, z),
        ))
        (λ nz. Yields-bind Yields-u8 λ n ys k.
          unfold read_participants in
          Yields-if ((n == 0) || ltb 255 n) _ _ (λ _. Yields-throw _)
            λ ok. Yields-bind (Yields-set eq_bytes invalid_value (array-IsStrict 32) n) λ ps zs l.
              Yields-pure _ (
                record {
                  threshold = h.0;
                  deletes = λ e. absurd (ground arith);
                  some_key = λ _. ground (arith, l.0);
                  keys = l.1;
                  distinct = l.2;
                  few = ground (arith, l.0);
                },
                let few : length ps % 256 ≡ n = omega (arith, l.0, k.0) in
                    simp (h.1, k.1, l.3, nz, few, append-nil),
              ));
}

-- The stated size of a payload is the number of bytes written, but when the payload deletes a
-- multisig: then two bytes are stated and one is written.
pub size_payload_lem :
    (p : MultiSigPayload)
    → IsPayload p
    → (p.threshold ≢ 0 → size_payload p ≡ length (write_payload p))
      × (p.threshold ≡ 0 → (size_payload p ≡ 2) × (length (write_payload p) ≡ 1))
unfolding size_payload write_payload
size_payload_lem p h = (
  λ n.
      let test : (p.threshold == 0) ≡ false = ground arith in
      rw test (omega (arith, size-items (array-IsLawful 32) p.participants h.keys)),
  λ z.
      let test : (p.threshold == 0) ≡ true = ground arith in
      rw (test, h.deletes z) (unfold size_items in (refl, refl)),
)
