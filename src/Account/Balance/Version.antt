-- ===== src/Account/Balance/Version.antt =====
-- The serializations of `VersionedBalance` and `Balance` (account/balance.rs), and the forms with compressed
-- ciphertexts, `normal_version` and `normal_balance`.
use blockchain_xelis.Prelude.{ℕ, ◌+◌, true, false, Option, none, some, List, ◌++◌}
use mathlib.Core.Option
use mathlib.Core.List.{append-nil}
use blockchain_xelis.Serializer.Reader.{Read, ◌>>=◌, pure}
use blockchain_xelis.Serializer.Reader.Triples.{Reads, Reads-eq, Reads-pure, Reads-bind}
use blockchain_xelis.Serializer.Trait.{Serializer}
use blockchain_xelis.Serializer.Numbers.{IsWord, u64, Reads-bool}
use blockchain_xelis.Serializer.Containers.Optional.{
  option, write_option, OnSome, read_option, read_present,
}
use blockchain_xelis.Account.Nonce.{previous, IsPrevious, previous-IsLawful, u64-IsLawful}
use blockchain_xelis.Account.Cache.{Curve, CiphertextCache, compress_cache}
use blockchain_xelis.Account.Cache.Codec.{
  IsCiphertext, write_cache, read_cache, size_cache, cache, normal, Reads-cache,
}
use blockchain_xelis.Account.Balance.{VersionedBalance, Balance}
use blockchain_xelis.Account.Balance.Codec.{write_type, read_type, balance_type, Reads-type}

module _ (curve : Curve) where
  open curve use {Ciphertext}

  -- `Option<CiphertextCache>`
  abbrev pub optional : Serializer (Option (CiphertextCache Ciphertext))
  optional = option (cache curve)

  abbrev pub IsCache : CiphertextCache Ciphertext → Type 0
  IsCache c = IsCiphertext (compress_cache curve c)

  unfoldable pub write_version : VersionedBalance Ciphertext → List ℕ
  write_version v =
      previous.write v.previous_topoheight
      ++ (write_type v.balance_type
          ++ (write_cache curve v.final_balance ++ optional.write v.output_balance))

  unfoldable pub read_version : Read (VersionedBalance Ciphertext)
  read_version = do
    previous_topoheight ← previous.read
    balance_type ← read_type
    final_balance ← read_cache curve
    output_balance ← optional.read
    pure (record {
      output_balance = output_balance;
      final_balance = final_balance;
      previous_topoheight = previous_topoheight;
      balance_type = balance_type;
    })

  unfoldable pub size_version : VersionedBalance Ciphertext → ℕ
  size_version v =
      size_cache curve v.final_balance
      + balance_type.size v.balance_type
      + previous.size v.previous_topoheight
      + optional.size v.output_balance

  abbrev pub versioned_balance : Serializer (VersionedBalance Ciphertext)
  versioned_balance = record { write = write_version; read = read_version; size = size_version }

  unfoldable pub normal_version : VersionedBalance Ciphertext → VersionedBalance Ciphertext
  normal_version v = record v {
    output_balance = Option.map (normal curve) v.output_balance;
    final_balance = normal curve v.final_balance;
  }

  pub record IsVersion (v : VersionedBalance Ciphertext) : Type 0 where
    pub previous : IsPrevious v.previous_topoheight
    pub final : IsCache v.final_balance
    pub output : OnSome (cache curve) IsCache v.output_balance

  Reads-optional :
      (o : Option (CiphertextCache Ciphertext))
      → OnSome (cache curve) IsCache o
      → Reads optional.read (optional.write o) (Option.map (normal curve) o)
  unfolding read_option write_option
  Reads-optional none h =
      Reads-bind (read_present (cache curve)) (Reads-bool false)
        (unfold read_present in Reads-pure none)
  Reads-optional (some c) h = Reads-bind (read_present (cache curve)) (Reads-bool true) (
      unfold read_present in
      Reads-eq (Reads-bind _ (Reads-cache curve c h) (Reads-pure (some (normal curve c))))
        (append-nil _))

  -- A version of a balance is read back with its ciphertexts compressed, and nothing else changed.
  pub Reads-version :
      (v : VersionedBalance Ciphertext)
      → IsVersion v
      → Reads read_version (write_version v) (normal_version v)
  unfolding read_version write_version normal_version
  Reads-version v h = Reads-bind _ (previous-IsLawful.reads _ h.previous) (
      Reads-bind _ (Reads-type v.balance_type) (
        Reads-bind _ (Reads-cache curve v.final_balance h.final) (
          Reads-eq
            (Reads-bind _ (Reads-optional v.output_balance h.output)
              (Reads-pure (normal_version v)))
            (append-nil _))))

  unfoldable pub write_balance : Balance Ciphertext → List ℕ
  write_balance b =
      u64.write b.topoheight
      ++ (optional.write b.output_balance
          ++ (write_cache curve b.final_balance ++ write_type b.balance_type))

  unfoldable pub read_balance : Read (Balance Ciphertext)
  read_balance = do
    topoheight ← u64.read
    output_balance ← optional.read
    final_balance ← read_cache curve
    balance_type ← read_type
    pure (record {
      topoheight = topoheight;
      output_balance = output_balance;
      final_balance = final_balance;
      balance_type = balance_type;
    })

  unfoldable pub size_balance : Balance Ciphertext → ℕ
  size_balance b =
      u64.size b.topoheight
      + optional.size b.output_balance
      + size_cache curve b.final_balance
      + balance_type.size b.balance_type

  unfoldable pub normal_balance : Balance Ciphertext → Balance Ciphertext
  normal_balance b = record b {
    output_balance = Option.map (normal curve) b.output_balance;
    final_balance = normal curve b.final_balance;
  }

  pub record IsBalance (b : Balance Ciphertext) : Type 0 where
    pub topoheight : IsWord 8 b.topoheight
    pub final : IsCache b.final_balance
    pub output : OnSome (cache curve) IsCache b.output_balance

  -- A balance is read back with its ciphertexts compressed, and nothing else changed.
  pub Reads-balance :
      (b : Balance Ciphertext)
      → IsBalance b
      → Reads read_balance (write_balance b) (normal_balance b)
  unfolding read_balance write_balance normal_balance
  Reads-balance b h = Reads-bind _ (u64-IsLawful.reads _ h.topoheight) (
      Reads-bind _ (Reads-optional b.output_balance h.output) (
        Reads-bind _ (Reads-cache curve b.final_balance h.final) (
          Reads-eq (Reads-bind _ (Reads-type b.balance_type) (Reads-pure (normal_balance b)))
            (append-nil _))))
