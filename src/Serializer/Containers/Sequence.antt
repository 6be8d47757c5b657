-- ===== src/Serializer/Containers/Sequence.antt =====
-- `Vec<T>` (serializer/defaults.rs): a count of two bytes, then the items; at most 1024 are read.
use blockchain_xelis.Prelude.{
  ℕ, ◌+◌, ◌%◌, ◌≤◌, ◌≡◌, List, ◌++◌, All, All-append, length, length-append, arith, if◌then◌else◌,
  ltb,
}
use blockchain_xelis.Serializer.Reader.{Read, ◌>>=◌, throw, invalid_size}
use blockchain_xelis.Serializer.Reader.Triples.{
  Reads, Reads-bind, Yields-bind, Yields-if, Yields-throw, Yields-imp, IsByte,
}
use blockchain_xelis.Serializer.Trait.{Serializer, IsLawful, IsStrict}
use blockchain_xelis.Serializer.Numbers.{read_u16, write_u16, Reads-word, Yields-word}
use blockchain_xelis.Serializer.Containers.Items.{
  write_items, read_items, size_items, Reads-items, Yields-items, size-items, All-items,
}
use blockchain_xelis.Serializer.Words.{length-to_be_bytes, All-to_be_bytes}

-- `DEFAULT_MAX_ITEMS`
abbrev pub default_max_items : ℕ
default_max_items = 1024

module _ {ℓ} {A : Type ℓ} (s : Serializer A) where
  -- `self.len() as u16`
  unfoldable pub write_vec : List A → List ℕ
  write_vec els = write_u16 (length els % 65536) ++ write_items s els

  unfoldable pub read_vec_items : ℕ → Read (List A)
  read_vec_items count =
      if ltb default_max_items count then throw invalid_size else read_items s count

  unfoldable pub read_vec : Read (List A)
  read_vec = do count ← read_u16; read_vec_items count

  unfoldable pub size_vec : List A → ℕ
  size_vec els = 2 + size_items s els

  abbrev pub vec : Serializer (List A)
  vec = record { write = write_vec; read = read_vec; size = size_vec }

  abbrev pub IsShort {κ} : (A → Type κ) → List A → Type κ
  IsShort P els = All P els × (length els ≤ default_max_items)

module _ {ℓ κ} {A : Type ℓ} {s : Serializer A} {Valid : A → Type κ} where
  Reads-vec :
      IsLawful s Valid
      → (els : List A) → IsShort s Valid els
      → Reads (read_vec s) (write_vec s els) els
  unfolding read_vec write_vec
  Reads-vec l els (v, short) =
      let small : length els % 65536 ≡ length els = omega arith in
      Reads-bind _ (Reads-word 2 (length els % 65536) (omega arith))
        (unfold read_vec_items in ground (arith, Reads-items l els v))

  pub vec-IsLawful : IsLawful s Valid → IsLawful (vec s) (IsShort s Valid)
  unfolding size_vec write_vec
  vec-IsLawful l = record {
    reads = Reads-vec l;
    sizes = λ els v. omega (
      arith,
      length-append {0} (write_u16 (length els % 65536)) (write_items s els),
      length-to_be_bytes 2 (length els % 65536),
      size-items l els v.0,
    );
    writes_bytes = λ els v.
        All-append IsByte (write_u16 (length els % 65536)) _
          (All-to_be_bytes 2 (length els % 65536)) (All-items l els v.0);
  }

  pub vec-IsStrict : IsStrict s Valid → IsStrict (vec s) (IsShort s Valid)
  unfolding read_vec write_vec
  vec-IsStrict st = record {
    yields = Yields-bind (Yields-word 2) λ count xs h.
        unfold read_vec_items in
        Yields-if (ltb default_max_items count) _ _ (λ _. Yields-throw _)
          λ fits. Yields-imp (Yields-items st count) λ els ys k.
            let same : length els % 65536 ≡ count = omega (arith, k.0, h.0) in
            ((k.1, ground (arith, k.0)), simp (h.1, k.2, same));
  }
