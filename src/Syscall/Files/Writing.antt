-- ===== src/Syscall/Files/Writing.antt =====
-- What `sys_write` hands to the file.
use r_core_tutorial_v3_arm.Base.{
  ℕ, zero, suc, ◌+◌, ◌-◌, ◌*◌, ◌/◌, ◌%◌, ◌≤◌, ◌<◌, min, ◌≡◌, refl, sym, ap, ◌∙◌, subst, fun_ext,
  ◌⊎◌, inl, inr, Bool, true, false, Option, none, some, List, [], ◌∷◌, ◌++◌, arith, ltb, leb, ◌==◌,
  ltb→lt, leb→le, ==_iff, Bool-cases, Option-cases, length, All, Run, done, panic, ◌>>=◌, ◌>>◌,
  assert,
}
use r_core_tutorial_v3_arm.Base.Int.{ℤ, pos, negsuc}
use r_core_tutorial_v3_arm.Mm.Access.{user_aspace_end, uaccess_ok, check, bytes_at, copy_from_user}
use r_core_tutorial_v3_arm.Syscall.Files.{
  file_at, chunk_len, read_array, write_loop, write_file, sys_write,
}

abbrev pub joined : List (List ℕ) → List ℕ
joined [] = []
joined (piece ∷ pieces) = piece ++ joined pieces

length-bytes_at : (mem : ℕ → ℕ) (p n : ℕ) → length (bytes_at mem p n) ≡ n
length-bytes_at mem p zero = refl
length-bytes_at mem p (suc n) = ap suc (length-bytes_at mem (p + 1) n)

bytes_at-append :
    (mem : ℕ → ℕ) (p q a b n : ℕ)
    → q ≡ p + a
    → n ≡ a + b
    → bytes_at mem p a ++ bytes_at mem q b ≡ bytes_at mem p n
bytes_at-append mem p q zero b n e f =
    ap (λ z. bytes_at mem z b) start ∙ ap (bytes_at mem p) (sym count)
  where
    start : q ≡ p
    start = omega (arith, e)

    count : n ≡ b
    count = omega (arith, f)
bytes_at-append mem p q (suc a) b zero e f = absurd (omega (arith, f))
bytes_at-append mem p q (suc a) b (suc n) e f =
    ap (◌∷◌ (mem p)) (bytes_at-append mem (p + 1) q a b n (omega (arith, e)) (omega (arith, f)))

-- A read of at most 256 bytes from an address that is not null.
read_array-done :
    (mem : ℕ → ℕ) (p n : ℕ)
    → 0 < p
    → 0 < n
    → n ≤ 256
    → p + n ≤ user_aspace_end
    → read_array mem p n ≡ done (bytes_at mem p n)
unfolding read_array check uaccess_ok copy_from_user
read_array-done mem p n h some_bytes small fits =
    let count : min n 256 * 1 ≡ n = omega (arith, small) in
    let not_null : (p == 0) ≡ false = ground (arith, h) in
    let one : leb p (user_aspace_end - 1) ≡ true = ground (arith, fits, some_bytes) in
    let size : ltb user_aspace_end (min n 256 * 1) ≡ false = ground (arith, small) in
    let all : leb p (user_aspace_end - min n 256 * 1) ≡ true = ground (arith, fits, small) in
    let aligned : (p % 1 == 0) ≡ true = ground arith in
    rw (not_null, one, aligned, size, all) (ap (λ z. done (bytes_at mem p z)) count)

read_array-panic :
    (mem : ℕ → ℕ) (p n : ℕ)
    → n ≤ 256
    → (p ≡ 0) ⊎ (user_aspace_end < p + n)
    → read_array mem p n ≡ panic
unfolding read_array check uaccess_ok copy_from_user
read_array-panic mem p n small (inl e) =
    let null : (p == 0) ≡ true = ground (arith, e) in rw null refl
read_array-panic mem p n small (inr e) = elim (Bool-cases (p == 0)) [
  | inl null ↦ rw null refl
  | inr not_null ↦
      let aligned : (p % 1 == 0) ≡ true = ground arith in
      let size : ltb user_aspace_end (min n 256 * 1) ≡ false = ground (arith, small) in
      let over : leb p (user_aspace_end - min n 256 * 1) ≡ false = ground (arith, small, e) in
      elim (Bool-cases (leb p (user_aspace_end - 1))) [
        | inr outside ↦ rw (not_null, outside) refl
        | inl inside ↦ rw (not_null, inside, aligned, size, over) refl
      ]
]

abbrev reply {ℓ} : {S : Type ℓ} → ℤ → S → Run (Option (ℤ × S))
reply n s = done (some (n, s))

abbrev finish {ℓ} : {S : Type ℓ} → ℕ → S → Run (Option (ℕ × S))
finish n s = done (some (n, s))

abbrev status {ℓ} : {S : Type ℓ} → Run (Option (ℕ × S)) → Run (Option (ℤ × S))
status m = m >>= λ r. done (elim r [ none ↦ none | some (count, s') ↦ some (pos count, s') ])

-- The bytes of the user from `buf` on, `len` of them, in pieces as the file gets them: of 256 bytes at most,
-- none empty, and no more pieces than that needs.
pub record IsSplit (mem : ℕ → ℕ) (buf len : ℕ) (pieces : List (List ℕ)) : Type 0 where
  pub whole : joined pieces ≡ bytes_at mem buf len
  pub sizes : All (λ piece. (0 < length piece) × (length piece ≤ 256)) pieces
  pub number : length pieces ≡ (len + 255) / 256

-- The addresses are those of the user, or there are none.
abbrev pub IsUserRange : ℕ → ℕ → Type 0
IsUserRange buf len = (len ≡ 0) ⊎ ((0 < buf) × (buf + len ≤ user_aspace_end))

abbrev pub IsOutside : ℕ → ℕ → Type 0
IsOutside buf len = (0 < len) × ((buf ≡ 0) ⊎ (user_aspace_end < buf + len))

nothing-IsSplit : (mem : ℕ → ℕ) (p n : ℕ) → n ≡ 0 → IsSplit mem p n []
nothing-IsSplit mem p n e = record {
  whole = ap (bytes_at mem p) (sym e);
  sizes = tt;
  number = omega (arith, e);
}

IsSplit-same :
    (mem : ℕ → ℕ) (p q m n : ℕ) (pieces : List (List ℕ))
    → p ≡ q
    → m ≡ n
    → IsSplit mem p m pieces
    → IsSplit mem q n pieces
IsSplit-same mem p q m n pieces e f h =
    subst (λ z. IsSplit mem z n pieces) e (subst (λ z. IsSplit mem p z pieces) f h)

module _ {ℓ} {S : Type ℓ} (writable : ℕ → Bool) (write : ℕ → List ℕ → S → Run (ℕ × S))
    (mem : ℕ → ℕ) where
  -- The pieces written one after the other, each of them whole.
  abbrev pub in_order : ℕ → List (List ℕ) → S → Run S
  in_order file [] s = done s
  in_order file (piece ∷ pieces) s =
      write file piece s >>= λ r. assert (r.0 == length piece) >> in_order file pieces r.1

  after_write :
      (m : Run (ℕ × S)) (n k : ℕ) (f : S → Run (Option (ℕ × S))) (h : S → Run S) (total : ℕ)
      → n ≡ k
      → ((s : S) → f s ≡ h s >>= finish total)
      → m >>= (λ r. assert (r.0 == n) >> f r.1)
        ≡ (m >>= (λ r. assert (r.0 == k) >> h r.1)) >>= finish total
  after_write panic n k f h total e g = refl
  after_write (done (count, s)) n k f h total e g = elim (Bool-cases (count == k)) [
    | inl y ↦ rw (e, y) (g s)
    | inr y ↦ rw (e, y) refl
  ]

  loop-in_order :
      (fuel file buf len count : ℕ)
      → 0 < buf
      → buf + len ≤ user_aspace_end
      → count ≤ len
      → len ≤ count + fuel
      → (pieces : List (List ℕ)) × IsSplit mem (buf + count) (len - count) pieces
        × ((s : S)
            → write_loop writable write mem fuel file buf len count s
              ≡ in_order file pieces s >>= finish len)
  loop-in_order zero file buf len count h fits le enough =
      let over : ltb count len ≡ false = ground (arith, enough) in
      let same : count ≡ len = omega (arith, le, enough) in
      (
        [],
        nothing-IsSplit mem (buf + count) (len - count) (omega (arith, same)),
        λ s. rw over (ap (λ n. finish n s) same),
      )
  loop-in_order (suc fuel) file buf len count h fits le enough = elim (Bool-cases (ltb count len)) [
    | inr y ↦
        let same : count ≡ len = ground (arith, le, y) in
        (
          [],
          nothing-IsSplit mem (buf + count) (len - count) (omega (arith, same)),
          λ s. rw y (ap (λ n. finish n s) same),
        )
    | inl y ↦
        let more = ltb→lt count len y in
        let n : ℕ = chunk_len len count in
        let (pieces, split, ran) =
          loop-in_order fuel file buf len (count + chunk_len len count) h fits (omega (arith, more))
            (omega (arith, more, enough)) in
        let size = length-bytes_at mem (buf + count) (chunk_len len count) in
        (
          bytes_at mem (buf + count) (chunk_len len count) ∷ pieces,
          record {
            whole =
                ap (λ rest. bytes_at mem (buf + count) (chunk_len len count) ++ rest) split.whole
                ∙ bytes_at-append mem (buf + count) (buf + (count + chunk_len len count))
                    (chunk_len len count) (len - (count + chunk_len len count)) (len - count)
                    (omega arith) (omega arith);
            sizes = ((omega (arith, size, more), omega (arith, size)), split.sizes);
            number = omega (arith, split.number, more);
          },
          λ s.
              rw
                (
                  y,
                  read_array-done mem (buf + count) (chunk_len len count) (omega (arith, h))
                      (omega (arith, more)) (omega arith) (omega (arith, fits, more)),
                )
                (after_write (write file (bytes_at mem (buf + count) (chunk_len len count)) s)
                  (chunk_len len count) (length (bytes_at mem (buf + count) (chunk_len len count)))
                  (write_loop writable write mem fuel file buf len (count + chunk_len len count))
                  (in_order file pieces) len (sym size) ran),
        )
  ]

  after_panic :
      (m : Run (ℕ × S)) (n : ℕ) (f : S → Run (Option (ℕ × S)))
      → ((s : S) → f s ≡ panic)
      → m >>= (λ r. assert (r.0 == n) >> f r.1) ≡ panic
  after_panic panic n f h = refl
  after_panic (done (count, s)) n f h = elim (Bool-cases (count == n)) [
    | inl y ↦ rw y (h s)
    | inr y ↦ rw y refl
  ]

  read_then :
      (chunk : Run (List ℕ)) (bytes : List ℕ) (f : List ℕ → Run (Option (ℕ × S)))
      → (chunk ≡ done bytes) ⊎ (chunk ≡ panic)
      → f bytes ≡ panic
      → chunk >>= f ≡ panic
  read_then chunk bytes f (inl e) h = rw e h
  read_then chunk bytes f (inr e) h = rw e refl

  -- The pieces before the end of the addresses are written, and then a read panics.
  loop-panic :
      (fuel file buf len count : ℕ)
      → 0 < buf
      → user_aspace_end < buf + len
      → count < len
      → len ≤ count + fuel
      → (s : S) → write_loop writable write mem fuel file buf len count s ≡ panic
  loop-panic zero file buf len count h over more enough s = absurd (omega (arith, more, enough))
  loop-panic (suc fuel) file buf len count h over more enough s =
      let y : ltb count len ≡ true = ground (arith, more) in
      elim (Bool-cases (leb (buf + count + chunk_len len count) user_aspace_end)) [
        | inr past ↦
            let beyond : user_aspace_end < buf + count + chunk_len len count =
              ground (arith, past) in
            rw
              (
                y,
                read_array-panic mem (buf + count) (chunk_len len count) (omega arith) (inr beyond),
              )
              refl
        | inl yet ↦
            let fits = leb→le (buf + count + chunk_len len count) user_aspace_end yet in
            rw
              (
                y,
                read_array-done mem (buf + count) (chunk_len len count) (omega (arith, h))
                    (omega (arith, more)) (omega arith) (omega (arith, fits)),
              )
              (after_panic (write file (bytes_at mem (buf + count) (chunk_len len count)) s)
                (chunk_len len count)
                (write_loop writable write mem fuel file buf len (count + chunk_len len count))
                (loop-panic fuel file buf len (count + chunk_len len count) h over
                  (omega (arith, fits, over, more)) (omega (arith, enough, more))))
      ]

  null-panic :
      (fuel file len : ℕ)
      → 0 < len
      → len ≤ fuel
      → (s : S) → write_loop writable write mem fuel file 0 len 0 s ≡ panic
  null-panic zero file len more enough s = absurd (omega (arith, more, enough))
  null-panic (suc fuel) file len more enough s =
      let y : ltb 0 len ≡ true = ground (arith, more) in
      rw (y, read_array-panic mem (0 + 0) (chunk_len len 0) (omega arith) (inl (omega arith))) refl

  status-finish : (m : Run S) (n : ℕ) → status (m >>= finish n) ≡ m >>= reply (pos n)
  status-finish panic n = refl
  status-finish (done s) n = refl

  -- What a call on a writable file does.
  abbrev pub IsWriting : ℕ → ℕ → ℕ → (S → Run (Option (ℤ × S))) → Type ℓ
  IsWriting file buf len call =
      (IsUserRange buf len
        × ((pieces : List (List ℕ)) × IsSplit mem buf len pieces
            × ((s : S) → call s ≡ in_order file pieces s >>= reply (pos len))))
      ⊎ (IsOutside buf len × ((s : S) → call s ≡ panic))

  write_file-IsWriting :
      (file buf len : ℕ)
      → writable file ≡ true
      → IsWriting file buf len (write_file writable write mem (some file) buf len)
  write_file-IsWriting file buf zero y =
      inl (inl refl, ([], nothing-IsSplit mem buf 0 refl, λ s. rw y refl))
  write_file-IsWriting file buf (suc len) y = elim (Bool-cases (buf == 0)) [
    | inl n ↦
        let null : buf ≡ 0 = (==_iff buf 0).0 n in
        inr (
          (omega arith, inl null),
          λ s. rw y (
              ap status (
                ap (λ b. write_loop writable write mem (suc len) file b (suc len) 0 s) null
                ∙ null-panic (suc len) file (suc len) (omega arith) (omega arith) s)),
        )
    | inr n ↦
        let not_null : 0 < buf = ground (arith, n) in
        elim (Bool-cases (leb (buf + suc len) user_aspace_end)) [
          | inr o ↦
              let over : user_aspace_end < buf + suc len = ground (arith, o) in
              inr (
                (omega arith, inr over),
                λ s. rw y (
                    ap status (
                      loop-panic (suc len) file buf (suc len) 0 not_null over (omega arith)
                        (omega arith) s)),
              )
          | inl i ↦
              let fits = leb→le (buf + suc len) user_aspace_end i in
              let (pieces, split, ran) =
                loop-in_order (suc len) file buf (suc len) 0 not_null fits (omega arith)
                  (omega arith) in
              inl (
                inr (not_null, fits),
                (
                  pieces,
                  IsSplit-same mem (buf + 0) buf (suc len - 0) (suc len) pieces (omega arith)
                      (omega arith) split,
                  λ s. rw y (ap status (ran s) ∙ status-finish (in_order file pieces s) (suc len)),
                ),
              )
        ]
  ]

  -- Whatever the files answer or panic with when they are written: where the descriptor is not in use or its
  -- file is not writable, `sys_write` returns minus one without a write. Otherwise, where the addresses
  -- are those of the user, it writes pieces of at most 256 bytes, in order, which together are exactly
  -- the bytes of the user, and returns their number; it panics just in the case that one of these
  -- writes panics or takes another number of bytes than its piece has. Where there are bytes to write
  -- and an address is null or past those of the user, it panics. The fuel of its loop is enough.
  pub sys_write_lem :
      (table : List (Option ℕ)) (fd buf len : ℕ)
      → ((file : ℕ) × (file_at table fd ≡ some file)
          × (writable file ≡ true)
          × IsWriting file buf len (sys_write writable write mem table fd buf len))
        ⊎ (((file : ℕ) → file_at table fd ≡ some file → writable file ≡ false)
            × ((s : S) → sys_write writable write mem table fd buf len s ≡ reply (negsuc 0) s))
  unfolding sys_write
  sys_write_lem table fd buf len = elim (Option-cases (file_at table fd)) [
    | inl e ↦ inr (
      λ file f. absurd (grind (arith, e, f)),
      λ s. at_none s e (Bool-cases (leb (length table) fd)),
    )
    | inr (file, e) ↦
        let inside : leb (length table) fd ≡ false = within table fd file e in
        elim (Bool-cases (writable file)) [
          | inl y ↦ inl (
            file,
            e,
            y,
            subst (IsWriting file buf len)
                (fun_ext
                  (λ s. sym (rw inside (ap (λ o. write_file writable write mem o buf len s) e))))
                (write_file-IsWriting file buf len y),
          )
          | inr n ↦ inr (
            λ other f. ap writable (some_value other file (sym f ∙ e)) ∙ n,
            λ s. rw (inside, e, n) refl,
          )
        ]
  ]
    where
      some_value : (a b : ℕ) → some a ≡ some b → a ≡ b
      some_value a b e = ap (λ (o : Option ℕ). elim o [ none ↦ a | some c ↦ c ]) e

      within :
          (table : List (Option ℕ)) (fd file : ℕ)
          → file_at table fd ≡ some file
          → leb (length table) fd ≡ false
      within [] fd file e = absurd (grind (arith, e))
      within (x ∷ table) zero file e = ground arith
      within (x ∷ table) (suc fd) file e = ground (arith, within table fd file e)

      at_none :
          (s : S)
          → file_at table fd ≡ none
          → (leb (length table) fd ≡ true) ⊎ (leb (length table) fd ≡ false)
          → sys_write writable write mem table fd buf len s ≡ reply (negsuc 0) s
      at_none s e (inl y) = rw y refl
      at_none s e (inr y) = rw (y, e) refl
