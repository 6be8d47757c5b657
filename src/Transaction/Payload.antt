-- ===== src/Transaction/Payload.antt =====
-- transaction/reference.rs, payload/burn.rs: a hash and a 64-bit number.
use blockchain_xelis.Prelude.{ℕ, ◌+◌, List, ◌++◌, All-append, length-append, arith}
use mathlib.Core.List.{append-nil}
use blockchain_xelis.Serializer.Reader.{Read, ◌>>=◌, pure}
use blockchain_xelis.Serializer.Reader.Triples.{
  Reads-eq, Reads-pure, Reads-bind, Yields-pure, Yields-bind, IsByte, OfLength,
}
use blockchain_xelis.Serializer.Trait.{Serializer, IsLawful, IsStrict}
use blockchain_xelis.Serializer.Numbers.{IsWord, u64, word-IsLawful, word-IsStrict}
use blockchain_xelis.Serializer.Arrays.{hash, array-IsLawful, array-IsStrict}

pub record Reference : Type 0 where
  pub hash : List ℕ
  pub topoheight : ℕ

unfoldable pub write_reference : Reference → List ℕ
write_reference r = hash.write r.hash ++ u64.write r.topoheight

unfoldable pub read_reference : Read Reference
read_reference = do
  hash ← hash.read
  topoheight ← u64.read
  pure (record { hash = hash; topoheight = topoheight })

unfoldable pub size_reference : Reference → ℕ
size_reference r = hash.size r.hash + u64.size r.topoheight

abbrev pub reference : Serializer Reference
reference = record { write = write_reference; read = read_reference; size = size_reference }

pub record IsReference (r : Reference) : Type 0 where
  pub hash : OfLength 32 r.hash
  pub topoheight : IsWord 8 r.topoheight

pub reference-IsLawful : IsLawful reference IsReference
unfolding write_reference read_reference size_reference
reference-IsLawful = record {
  reads = λ r h. Reads-bind _ ((array-IsLawful 32).reads _ h.hash) (
      Reads-eq (Reads-bind _ ((word-IsLawful 8).reads _ h.topoheight) (Reads-pure r))
        (append-nil _));
  sizes = λ r h. omega (
    arith,
    length-append {0} (hash.write r.hash) (u64.write r.topoheight),
    (array-IsLawful 32).sizes _ h.hash,
    (word-IsLawful 8).sizes _ h.topoheight,
  );
  writes_bytes = λ r h.
      All-append IsByte (hash.write r.hash) _ ((array-IsLawful 32).writes_bytes _ h.hash)
        ((word-IsLawful 8).writes_bytes _ h.topoheight);
}

pub reference-IsStrict : IsStrict reference IsReference
unfolding write_reference read_reference
reference-IsStrict = record {
  yields = Yields-bind (array-IsStrict 32).yields λ a xs h.
      Yields-bind (word-IsStrict 8).yields λ n ys k.
        Yields-pure _ (record { hash = h.0; topoheight = k.0 }, simp (h.1, k.1, append-nil));
}

pub record BurnPayload : Type 0 where
  pub asset : List ℕ
  pub amount : ℕ

unfoldable pub write_burn : BurnPayload → List ℕ
write_burn b = hash.write b.asset ++ u64.write b.amount

unfoldable pub read_burn : Read BurnPayload
read_burn = do
  asset ← hash.read
  amount ← u64.read
  pure (record { asset = asset; amount = amount })

unfoldable pub size_burn : BurnPayload → ℕ
size_burn b = hash.size b.asset + u64.size b.amount

abbrev pub burn : Serializer BurnPayload
burn = record { write = write_burn; read = read_burn; size = size_burn }

pub record IsBurn (b : BurnPayload) : Type 0 where
  pub asset : OfLength 32 b.asset
  pub amount : IsWord 8 b.amount

pub burn-IsLawful : IsLawful burn IsBurn
unfolding write_burn read_burn size_burn
burn-IsLawful = record {
  reads = λ b h.
      Reads-bind _ ((array-IsLawful 32).reads _ h.asset) (
        Reads-eq (Reads-bind _ ((word-IsLawful 8).reads _ h.amount) (Reads-pure b)) (append-nil _));
  sizes = λ b h. omega (
    arith,
    length-append {0} (hash.write b.asset) (u64.write b.amount),
    (array-IsLawful 32).sizes _ h.asset,
    (word-IsLawful 8).sizes _ h.amount,
  );
  writes_bytes = λ b h.
      All-append IsByte (hash.write b.asset) _ ((array-IsLawful 32).writes_bytes _ h.asset)
        ((word-IsLawful 8).writes_bytes _ h.amount);
}

pub burn-IsStrict : IsStrict burn IsBurn
unfolding write_burn read_burn
burn-IsStrict = record {
  yields = Yields-bind (array-IsStrict 32).yields λ a xs h.
      Yields-bind (word-IsStrict 8).yields
        λ n ys k. Yields-pure _ (record { asset = h.0; amount = k.0 }, simp (h.1, k.1, append-nil));
}
