-- ===== src/Serializer/Reader/Triples.antt =====
-- Two judgements on deserializers, with one rule for each way to build one.
use blockchain_xelis.Prelude.{
  ℕ, zero, suc, ◌+◌, ◌-◌, ◌≤◌, ◌<◌, ◌≡◌, refl, ap, sym, ◌∙◌, Bool, true, false, List, [], ◌∷◌, ◌++◌,
  Result, ok, err, arith, length, take, drop, get_or, All, if◌then◌else◌, length-append,
  length-drop, drop-drop, drop-append, take-append, take-append-drop, length-take, All-take,
  All-drop,
}
use mathlib.Core.Path.{subst}
use mathlib.Core.List.{append_assoc}
use blockchain_xelis.Serializer.Reader.{
  Reader, Read, ReaderError, ◌>>=◌, ◌>>◌, pure, throw, advance, skip, read_bytes, read_u8,
}

-- What is left to read.
abbrev pub remaining : Reader → List ℕ
remaining r = drop r.total r.bytes

pub remaining-advance :
    (r : Reader) (xs ys : List ℕ) → remaining r ≡ xs ++ ys → remaining (advance r (length xs)) ≡ ys
remaining-advance r xs ys h =
    sym (drop-drop r.total (length xs) r.bytes) ∙ ap (drop (length xs)) h ∙ drop-append xs ys

-- Wherever the reader stands before the bytes `xs`, `m` takes exactly these and returns `a`.
pub record Reads {ℓ} {A : Type ℓ} (m : Read A) (xs : List ℕ) (a : A) : Type ℓ where
  pub at :
      (r : Reader) (rest : List ℕ) → remaining r ≡ xs ++ rest → m r ≡ ok (a, advance r (length xs))

pub get_or-drop {ℓ} :
    {A : Type ℓ} (n : ℕ) (xs : List A) (d : A) {y : A} {ys : List A}
    → drop n xs ≡ y ∷ ys
    → get_or xs n d ≡ y
get_or-drop zero [] d h = cc
get_or-drop zero (x ∷ xs) d h = cc
get_or-drop (suc n) [] d h = cc
get_or-drop (suc n) (x ∷ xs) d h = get_or-drop n xs d h

module _ {ℓ} {A : Type ℓ} where
  pub Reads-pure : (a : A) → Reads (pure a) [] a
  unfolding pure
  Reads-pure a = record { at = λ r rest h. ground arith }

  pub Reads-eq : {m : Read A} {xs ys : List ℕ} {a : A} → Reads m xs a → xs ≡ ys → Reads m ys a
  Reads-eq {m} {a} h e = subst (λ zs. Reads m zs a) e h

  pub Reads-value : {m : Read A} {xs : List ℕ} {a b : A} → Reads m xs a → a ≡ b → Reads m xs b
  Reads-value {m} {xs} h e = subst (Reads m xs) e h

-- One step after another, on the results of the first.
pub bind_ok {ℓ κ} :
    {A : Type ℓ} {B : Type κ} (m : Read A) (f : A → Read B) (r : Reader) {a : A} {r' : Reader}
    → m r ≡ ok (a, r')
    → (m >>= f) r ≡ f a r'
unfolding ◌>>=◌
bind_ok m f r e = rw (e, ◌>>=◌)

module _ {ℓ κ} {A : Type ℓ} {B : Type κ} where
  pub Reads-bind :
      {m : Read A} (f : A → Read B) {xs ys : List ℕ} {a : A} {b : B}
      → Reads m xs a
      → Reads (f a) ys b
      → Reads (m >>= f) (xs ++ ys) b
  Reads-bind {m} f {xs} {ys} {a} {b} hm hf = record {
    at = λ r rest h.
        let h' : remaining r ≡ xs ++ (ys ++ rest) = h ∙ append_assoc xs ys rest in
        bind_ok m f r (hm.at r (ys ++ rest) h')
        ∙ hf.at (advance r (length xs)) rest (remaining-advance r xs (ys ++ rest) h')
        ∙ ap (λ (n : ℕ). ok (b, record r { total = n })) (omega (arith, length-append {0} xs ys));
  }

pub Reads-then {κ} :
    {B : Type κ} {m : Read (Unit {0})} {k : Read B} {xs ys : List ℕ} {b : B}
    → Reads m xs tt
    → Reads k ys b
    → Reads (m >> k) (xs ++ ys) b
unfolding ◌>>◌
Reads-then {k} hm hk = Reads-bind (λ _. k) hm hk

pub Reads-bytes : (n : ℕ) (xs : List ℕ) → length xs ≡ n → Reads (read_bytes n) xs xs
unfolding read_bytes
Reads-bytes n xs e = record {
  at = λ r rest h.
      let fits : length xs + length rest ≡ length r.bytes - r.total =
        sym (length-append xs rest) ∙ ap length (sym h) ∙ length-drop r.total r.bytes in
      let cut : take n (remaining r) ≡ xs = rw h (rw (← e) (take-append xs rest)) in
      ground (arith, fits, cut);
}

pub Reads-u8 : (b : ℕ) → Reads read_u8 (b ∷ []) b
unfolding read_u8
Reads-u8 b = record {
  at = λ r rest h.
      let fits : suc (length rest) ≡ length r.bytes - r.total =
        ap length (sym h) ∙ length-drop r.total r.bytes in
      ground (arith, fits, get_or-drop r.total r.bytes 0 h);
}

-- A byte.
abbrev pub IsByte : ℕ → Type 0
IsByte b = b < 256

-- The reader stands inside its buffer, which holds bytes.
pub record IsSound (r : Reader) : Type 0 where
  pub within : r.total ≤ length r.bytes
  pub all_bytes : All IsByte r.bytes

-- `r'` is `r` after some reads: sound, the same buffer, not further back.
pub record Follows (r r' : Reader) : Type 0 where
  pub sound : IsSound r'
  pub same : r'.bytes ≡ r.bytes
  pub forward : r.total ≤ r'.total

-- Whatever `m` returns from a sound reader is in the relation `R` with the bytes that it took, and
-- the reader stays sound.
pub record Yields {ℓ κ} {A : Type ℓ} (m : Read A) (R : A → List ℕ → Type κ) : Type (ℓ ⊔ κ) where
  pub at :
      (r r' : Reader) (a : A)
      → IsSound r
      → m r ≡ ok (a, r')
      → (xs : List ℕ) × R a xs × (remaining r ≡ xs ++ remaining r') × Follows r r'

Follows-refl : {r : Reader} → IsSound r → Follows r r
Follows-refl s = record { sound = s; same = refl; forward = omega arith }

ok_parts {ℓ} :
    {A : Type ℓ} {a b : A} {r s : Reader}
    → (let x : Result ReaderError (A × Reader) = ok (a, r) in x ≡ ok (b, s))
    → (a ≡ b) × (r ≡ s)
ok_parts h = (cc, cc)

-- What a successful sequence went through.
pub bind_parts {ℓ κ} :
    {A : Type ℓ} {B : Type κ} (m : Read A) (f : A → Read B) (r : Reader) {b : B} {s : Reader}
    → (m >>= f) r ≡ ok (b, s)
    → (a : A) × (t : Reader) × (m r ≡ ok (a, t)) × (f a t ≡ ok (b, s))
unfolding ◌>>=◌
bind_parts {A} {B} m f r {b} {s} h = split (m r) refl h
  where
    split :
        (o : Result ReaderError (A × Reader))
        → m r ≡ o
        → elim o [ ok (a, r') ↦ f a r' | err e ↦ err e ] ≡ ok (b, s)
        → (a : A) × (t : Reader) × (m r ≡ ok (a, t)) × (f a t ≡ ok (b, s))
    split (ok (a, t)) e g = (a, t, e, g)
    split (err x) e g = cc

Follows-trans : {r s t : Reader} → Follows r s → Follows s t → Follows r t
Follows-trans f g = record { sound = g.sound; same = g.same ∙ f.same; forward = omega arith }

module _ {ℓ κ} {A : Type ℓ} {R : A → List ℕ → Type κ} where
  pub Yields-pure : (a : A) → R a [] → Yields (pure a) R
  unfolding pure
  Yields-pure a p = record {
    at = λ r r' b s e.
        let (p', q') = ok_parts e in
        ([], subst (λ c. R c []) p' p, ap remaining q', subst (Follows r) q' (Follows-refl s));
  }

  pub Yields-throw : (e : ReaderError) → Yields (throw e) R
  unfolding throw
  Yields-throw e = record { at = λ r r' a s h. cc }

  pub Yields-if :
      (b : Bool) (m n : Read A)
      → (b ≡ true → Yields m R)
      → (b ≡ false → Yields n R)
      → Yields (if b then m else n) R
  Yields-if true m n hm hn = hm refl
  Yields-if false m n hm hn = hn refl

  pub Yields-imp {μ} :
      {m : Read A} {S : A → List ℕ → Type μ}
      → Yields m R
      → ((a : A) (xs : List ℕ) → R a xs → S a xs)
      → Yields m S
  Yields-imp h f = record {
    at = λ r r' a s e. let (xs, p, took, fo) = h.at r r' a s e in (xs, f a xs p, took, fo);
  }

module _ {ℓ κ μ ν} {A : Type ℓ} {B : Type κ} {R : A → List ℕ → Type μ}
    {S : B → List ℕ → Type ν} where
  pub Yields-bind :
      {m : Read A} {f : A → Read B}
      → Yields m R
      → ((a : A) (xs : List ℕ) → R a xs → Yields (f a) (λ b ys. S b (xs ++ ys)))
      → Yields (m >>= f) S
  Yields-bind {m} {f} hm hf = record {
    at = λ r r' b s e.
        let (a, t, em, ef) = bind_parts m f r e in
        let (xs, pa, tx, ft) = hm.at r t a s em in
        let (ys, qb, ty, fu) = (hf a xs pa).at t r' b ft.sound ef in
        (
          xs ++ ys,
          qb,
          tx ∙ ap (λ zs. xs ++ zs) ty ∙ sym (append_assoc xs ys (remaining r')),
          Follows-trans ft fu,
        );
  }

pub Yields-then {κ μ ν} :
    {B : Type κ} {m : Read (Unit {0})} {k : Read B} {R : Unit {0} → List ℕ → Type μ}
    {S : B → List ℕ → Type ν}
    → Yields m R
    → ((xs : List ℕ) → R tt xs → Yields k (λ b ys. S b (xs ++ ys)))
    → Yields (m >> k) S
unfolding ◌>>◌
Yields-then hm hk = Yields-bind hm (λ _ xs p. hk xs p)

abbrev checked {ℓ} :
    {A : Type ℓ} → Bool → ReaderError → A → Reader → Result ReaderError (A × Reader)
checked b e a r = if b then err e else ok (a, r)

-- The code's range test, passed.
checked_parts {ℓ} :
    {A : Type ℓ} (b : Bool) (e : ReaderError) {a a' : A} {r r' : Reader}
    → checked b e a r ≡ ok (a', r')
    → (b ≡ false) × (a ≡ a') × (r ≡ r')
checked_parts true e h = cc
checked_parts false e h = let (p, q) = ok_parts h in (refl, p, q)

advance-Follows :
    (r : Reader) (n : ℕ) → IsSound r → n ≤ length r.bytes - r.total → Follows r (advance r n)
advance-Follows r n s h = record {
  sound = record { within = omega arith; all_bytes = s.all_bytes };
  same = refl;
  forward = omega arith;
}

take-append-advance :
    (r : Reader) (n : ℕ) → remaining r ≡ take n (remaining r) ++ remaining (advance r n)
take-append-advance r n =
    sym (take-append-drop n (remaining r))
    ∙ ap (λ zs. take n (remaining r) ++ zs) (drop-drop r.total n r.bytes)

take_one : (n : ℕ) (xs : List ℕ) → n < length xs → take 1 (drop n xs) ≡ get_or xs n 0 ∷ []
take_one n [] h = absurd (omega arith)
take_one zero (x ∷ xs) h = refl
take_one (suc n) (x ∷ xs) h = take_one n xs (omega arith)

-- The `n` bytes that were taken, whatever they are.
abbrev pub OfLength : ℕ → List ℕ → Type 0
OfLength n xs = (length xs ≡ n) × All IsByte xs

OfLength-take :
    (r : Reader) (n : ℕ)
    → IsSound r
    → n ≤ length r.bytes - r.total
    → OfLength n (take n (remaining r))
OfLength-take r n s h = (
  length-take n (remaining r) (rw (length-drop r.total r.bytes) h),
  All-take IsByte n (remaining r) (All-drop IsByte r.total r.bytes s.all_bytes),
)

pub Yields-skip : (n : ℕ) → Yields (skip n) (λ _ xs. OfLength n xs)
unfolding skip
Yields-skip n = record {
  at = λ r r' a s e.
      let (fits, _, q) = checked_parts _ _ e in
      let h : n ≤ length r.bytes - r.total = ground arith in
      (
        take n (remaining r),
        OfLength-take r n s h,
        subst (λ t. remaining r ≡ take n (remaining r) ++ remaining t) q (take-append-advance r n),
        subst (Follows r) q (advance-Follows r n s h),
      );
}

pub Yields-bytes : (n : ℕ) → Yields (read_bytes n) (λ ys xs. OfLength n xs × (xs ≡ ys))
unfolding read_bytes
Yields-bytes n = record {
  at = λ r r' a s e.
      let (fits, p, q) = checked_parts _ _ e in
      let h : n ≤ length r.bytes - r.total = ground arith in
      (
        take n (remaining r),
        (OfLength-take r n s h, p),
        subst (λ t. remaining r ≡ take n (remaining r) ++ remaining t) q (take-append-advance r n),
        subst (Follows r) q (advance-Follows r n s h),
      );
}

pub Yields-u8 : Yields read_u8 (λ b xs. IsByte b × (xs ≡ b ∷ []))
unfolding read_u8
Yields-u8 = record {
  at = λ r r' a s e.
      let (fits, p, q) = checked_parts _ _ e in
      let h : 1 ≤ length r.bytes - r.total = ground arith in
      let one = take_one r.total r.bytes (omega arith) in
      let byte = subst (All IsByte) one (OfLength-take r 1 s h).1 in
      (
        take 1 (remaining r),
        (subst IsByte p byte.0, one ∙ ap (λ b. b ∷ []) p),
        subst (λ t. remaining r ≡ take 1 (remaining r) ++ remaining t) q (take-append-advance r 1),
        subst (Follows r) q (advance-Follows r 1 s h),
      );
}
