-- ===== src/Account/Balance/Codec.antt =====
-- The serializations of `BalanceType` and `AccountSummary` (account/balance.rs).
use blockchain_xelis.Prelude.{
  ℕ, ◌+◌, List, ◌++◌, All-append, length-append, arith, ◌==◌, if◌then◌else◌,
}
use mathlib.Core.List.{append-nil}
use blockchain_xelis.Serializer.Reader.{Read, ◌>>=◌, pure, throw, read_u8, invalid_value}
use blockchain_xelis.Serializer.Reader.Triples.{
  Reads, Reads-eq, Reads-pure, Reads-bind, Reads-u8, Yields-pure, Yields-bind, Yields-if,
  Yields-throw, Yields-u8, IsByte,
}
use blockchain_xelis.Serializer.Trait.{Serializer, IsLawful, IsStrict}
use blockchain_xelis.Serializer.Numbers.{IsWord, write_u8, u64}
use blockchain_xelis.Account.Nonce.{
  previous, IsPrevious, previous-IsLawful, previous-IsStrict, u64-IsLawful, u64-IsStrict,
}
use blockchain_xelis.Account.Balance.{BalanceType, AccountSummary}

unfoldable pub write_type : BalanceType → List ℕ
write_type BalanceType.input = write_u8 0
write_type BalanceType.output = write_u8 1
write_type BalanceType.both = write_u8 2

unfoldable pub type_of_byte : ℕ → Read BalanceType
type_of_byte byte =
    if byte == 0
    then pure BalanceType.input
    else if byte == 1
    then pure BalanceType.output
    else if byte == 2
    then pure BalanceType.both
    else throw invalid_value

unfoldable pub read_type : Read BalanceType
read_type = do byte ← read_u8; type_of_byte byte

abbrev pub balance_type : Serializer BalanceType
balance_type = record { write = write_type; read = read_type; size = λ _. 1 }

pub Reads-type : (t : BalanceType) → Reads read_type (write_type t) t
unfolding read_type write_type
Reads-type BalanceType.input =
    Reads-bind type_of_byte (Reads-u8 0) (unfold type_of_byte in Reads-pure BalanceType.input)
Reads-type BalanceType.output =
    Reads-bind type_of_byte (Reads-u8 1) (unfold type_of_byte in Reads-pure BalanceType.output)
Reads-type BalanceType.both =
    Reads-bind type_of_byte (Reads-u8 2) (unfold type_of_byte in Reads-pure BalanceType.both)

pub balance_type-IsLawful : IsLawful balance_type (λ _. Unit {0})
unfolding write_type
balance_type-IsLawful = record {
  reads = λ t _. Reads-type t;
  sizes = λ t _. ground arith;
  writes_bytes = λ t _. ground arith;
}

pub balance_type-IsStrict : IsStrict balance_type (λ _. Unit {0})
unfolding read_type write_type
balance_type-IsStrict = record {
  yields = Yields-bind Yields-u8 λ byte xs h.
      unfold type_of_byte in
      Yields-if (byte == 0) _ _ (λ e. Yields-pure BalanceType.input (tt, ground arith))
        λ _.
          Yields-if (byte == 1) _ _ (λ e. Yields-pure BalanceType.output (tt, ground arith))
            λ _.
              Yields-if (byte == 2) _ _ (λ e. Yields-pure BalanceType.both (tt, ground arith))
                λ _. Yields-throw _;
}

unfoldable pub write_summary : AccountSummary → List ℕ
write_summary s = previous.write s.output_topoheight ++ u64.write s.stable_topoheight

unfoldable pub read_summary : Read AccountSummary
read_summary = do
  output_topoheight ← previous.read
  stable_topoheight ← u64.read
  pure (record { output_topoheight = output_topoheight; stable_topoheight = stable_topoheight })

unfoldable pub size_summary : AccountSummary → ℕ
size_summary s = previous.size s.output_topoheight + u64.size s.stable_topoheight

abbrev pub summary : Serializer AccountSummary
summary = record { write = write_summary; read = read_summary; size = size_summary }

pub record IsSummary (s : AccountSummary) : Type 0 where
  pub output : IsPrevious s.output_topoheight
  pub stable : IsWord 8 s.stable_topoheight

pub summary-IsLawful : IsLawful summary IsSummary
unfolding write_summary read_summary size_summary
summary-IsLawful = record {
  reads = λ s h.
      Reads-bind _ (previous-IsLawful.reads _ h.output)
        (Reads-eq (Reads-bind _ (u64-IsLawful.reads _ h.stable) (Reads-pure s)) (append-nil _));
  sizes = λ s h. omega (
    arith,
    length-append {0} (previous.write s.output_topoheight) (u64.write s.stable_topoheight),
    previous-IsLawful.sizes _ h.output,
    u64-IsLawful.sizes _ h.stable,
  );
  writes_bytes = λ s h.
      All-append IsByte (previous.write s.output_topoheight) _
        (previous-IsLawful.writes_bytes _ h.output) (u64-IsLawful.writes_bytes _ h.stable);
}

pub summary-IsStrict : IsStrict summary IsSummary
unfolding write_summary read_summary
summary-IsStrict = record {
  yields = Yields-bind previous-IsStrict.yields λ o xs h.
      Yields-bind u64-IsStrict.yields λ s ys k.
        Yields-pure _ (record { output = h.0; stable = k.0 }, simp (h.1, k.1, append-nil));
}
