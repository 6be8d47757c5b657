-- ===== src/Transaction/MultiSig/Signatures.antt =====
-- What the signatures of a transaction must satisfy, and the laws of their serialization
-- (transaction/multisig.rs, crypto/elgamal/signature.rs, crypto/elgamal/compressed.rs of xelis_common/src).
use blockchain_xelis.Prelude.{
  ℕ, ◌%◌, ◌≤◌, Bool, length-append, All-append, ◌≡◌, true, List, [], All, length, arith,
}
use mathlib.Core.List.{append-nil}
use blockchain_xelis.Serializer.Reader.Triples.{
  Reads, Reads-eq, Reads-pure, Reads-bind, Reads-u8, Yields-pure, Yields-bind, Yields-if,
  Yields-throw, Yields-u8, IsByte, OfLength,
}
use blockchain_xelis.Serializer.Reader.{invalid_value}
use blockchain_xelis.Serializer.Trait.{IsLawful, IsStrict}
use blockchain_xelis.Serializer.Arrays.{array-IsLawful, array-IsStrict}
use blockchain_xelis.Serializer.Containers.Items.{size-items, All-items}
use blockchain_xelis.Serializer.Containers.Unique.{IsDistinct, AreNew-nil, Reads-unique, Yields-set}
use blockchain_xelis.Transaction.MultiSig.{
  Signature, SignatureId, same_id, scalar, read_scalar, read_signature, write_signature, signature,
  write_id, read_id, size_id, signature_id, MultiSig, write_multisig, read_multisig, size_multisig,
  multisig,
}

-- The scalars that a curve library takes: 32 bytes that are canonical.
module _ (is_canonical : List ℕ → Bool) where
  abbrev pub IsScalar : List ℕ → Type 0
  IsScalar bytes = OfLength 32 bytes × (is_canonical bytes ≡ true)

  scalar-IsLawful : IsLawful (scalar is_canonical) IsScalar
  unfolding read_scalar
  scalar-IsLawful = record {
    reads = λ bytes h.
        Reads-eq
          (Reads-bind _ ((array-IsLawful 32).reads bytes h.0)
            (rw h.1 (Reads-pure {A = List ℕ} bytes)))
          (append-nil _);
    sizes = λ bytes h. (array-IsLawful 32).sizes bytes h.0;
    writes_bytes = λ bytes h. (array-IsLawful 32).writes_bytes bytes h.0;
  }

  scalar-IsStrict : IsStrict (scalar is_canonical) IsScalar
  unfolding read_scalar
  scalar-IsStrict = record {
    yields = Yields-bind (array-IsStrict 32).yields λ bytes xs h.
        Yields-if (is_canonical bytes) _ _
          (λ canonical. Yields-pure _ ((h.0, canonical), simp (h.1, append-nil)))
          (λ _. Yields-throw _);
  }

  pub record IsSignature (signed : SignatureId) : Type 0 where
    pub id : IsByte signed.id
    pub s : IsScalar signed.signature.s
    pub e : IsScalar signed.signature.e

  Reads-signature :
      (sig : Signature)
      → IsScalar sig.s
      → IsScalar sig.e
      → Reads (read_signature is_canonical) (write_signature is_canonical sig) sig
  unfolding read_signature write_signature
  Reads-signature sig s e =
      Reads-bind _ (scalar-IsLawful.reads sig.s s)
        (Reads-eq (Reads-bind _ (scalar-IsLawful.reads sig.e e) (Reads-pure sig)) (append-nil _))

  pub signature_id-IsLawful : IsLawful (signature_id is_canonical) IsSignature
  unfolding write_id read_id size_id write_signature
  signature_id-IsLawful = record {
    reads = λ signed h. Reads-bind _ (Reads-u8 signed.id) (
        Reads-eq (Reads-bind _ (Reads-signature signed.signature h.s h.e) (Reads-pure signed))
          (append-nil _));
    sizes = λ signed h.
        let s_size = scalar-IsLawful.sizes signed.signature.s h.s in
        let e_size = scalar-IsLawful.sizes signed.signature.e h.e in
        let both =
          length-append ((scalar is_canonical).write signed.signature.s)
            ((scalar is_canonical).write signed.signature.e) in
        omega (arith, s_size, e_size, both);
    writes_bytes = λ signed h. (
      h.id,
      All-append IsByte _ _ (scalar-IsLawful.writes_bytes signed.signature.s h.s)
          (scalar-IsLawful.writes_bytes signed.signature.e h.e),
    );
  }

  signature-IsStrict : IsStrict (signature is_canonical) (λ sig. IsScalar sig.s × IsScalar sig.e)
  unfolding read_signature write_signature
  signature-IsStrict = record {
    yields = Yields-bind scalar-IsStrict.yields λ s xs h.
        Yields-bind scalar-IsStrict.yields
          λ e ys k. Yields-pure _ ((h.0, k.0), simp (h.1, k.1, append-nil));
  }

  pub signature_id-IsStrict : IsStrict (signature_id is_canonical) IsSignature
  unfolding write_id read_id
  signature_id-IsStrict = record {
    yields = Yields-bind Yields-u8 λ i xs h. Yields-bind signature-IsStrict.yields λ sig ys k.
        Yields-pure _ (record { id = h.0; s = k.0.0; e = k.0.1 }, simp (h.1, k.1, append-nil));
  }

  -- At most 255 signatures, of distinct signers.
  pub record IsMultiSig (m : MultiSig) : Type 0 where
    pub signatures : All IsSignature m.signatures
    pub distinct : IsDistinct same_id m.signatures
    pub few : length m.signatures ≤ 255

  Reads-multisig :
      (m : MultiSig)
      → IsMultiSig m
      → Reads (read_multisig is_canonical) (write_multisig is_canonical m) m
  unfolding read_multisig write_multisig
  Reads-multisig m h =
      let few : length m.signatures % 256 ≡ length m.signatures = omega (arith, h.few) in
      Reads-bind _ (Reads-u8 (length m.signatures % 256)) (
        rw few (
          Reads-eq
            (Reads-bind _
              (Reads-unique same_id invalid_value signature_id-IsLawful [] m.signatures h.signatures
                h.distinct (AreNew-nil same_id m.signatures))
              (Reads-pure m))
            (append-nil _)))

  pub multisig-IsLawful : IsLawful (multisig is_canonical) IsMultiSig
  unfolding write_multisig size_multisig
  multisig-IsLawful = record {
    reads = Reads-multisig;
    sizes = λ m h. omega (arith, size-items signature_id-IsLawful m.signatures h.signatures);
    writes_bytes = λ m h. (omega arith, All-items signature_id-IsLawful m.signatures h.signatures);
  }

  pub multisig-IsStrict : IsStrict (multisig is_canonical) IsMultiSig
  unfolding read_multisig write_multisig
  multisig-IsStrict = record {
    yields = Yields-bind Yields-u8 λ n xs h.
        Yields-bind (Yields-set same_id invalid_value signature_id-IsStrict n) λ ss ys k.
          let few : length ss % 256 ≡ n = omega (arith, k.0, h.0) in
          Yields-pure _ (
            record { signatures = k.1; distinct = k.2; few = omega (arith, k.0, h.0) },
            simp (h.1, k.3, few, append-nil),
          );
  }
