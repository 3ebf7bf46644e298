-- ===== src/EasyFs/Entry.antt =====
-- The directory entries of easy-fs/src/layout.rs: 28 bytes of name, ended by a zero, and the number of the
-- inode in four bytes. A name is its bytes; that they are UTF-8 is left out.
use r_core_tutorial_v3_arm.Base.{
  ℕ, zero, suc, ◌+◌, ◌-◌, ◌*◌, ◌/◌, ◌%◌, ◌^◌, ◌≤◌, ◌<◌, ◌≡◌, refl, ap, ◌∙◌, false, List, [], ◌∷◌,
  ◌++◌, arith, leb, ◌==◌, if◌then◌else◌, length, take, drop, replicate, length-append,
  length-replicate, contains, Run, done, panic, ◌>>=◌,
}

pub record DirEntry : Type 0 where
  pub name : List ℕ
  pub inode_number : ℕ

abbrev pub name_length_limit : ℕ
name_length_limit = 27

-- `DirEntry::new`: the slice that the name is copied to panics for a name of more than 28 bytes.
unfoldable pub new_entry : List ℕ → ℕ → Run DirEntry
new_entry name inode_number =
    if leb (length name) (name_length_limit + 1)
    then done (record {
      name = name ++ replicate (name_length_limit + 1 - length name) 0;
      inode_number = inode_number;
    })
    else panic

unfoldable pub empty_entry : DirEntry
empty_entry = record { name = replicate (name_length_limit + 1) 0; inode_number = 0 }

abbrev pub little_endian : ℕ → List ℕ
little_endian n = n % 2 ^ 8 ∷ (n / 2 ^ 8 % 2 ^ 8 ∷ (n / 2 ^ 16 % 2 ^ 8 ∷ (n / 2 ^ 24 % 2 ^ 8 ∷ [])))

unfoldable pub as_bytes : DirEntry → List ℕ
as_bytes e = e.name ++ little_endian e.inode_number

-- The entry after its bytes were overwritten through `as_bytes_mut`.
abbrev from_little_endian : List ℕ → ℕ
from_little_endian (a ∷ (b ∷ (c ∷ (d ∷ bytes)))) = a + b * 2 ^ 8 + c * 2 ^ 16 + d * 2 ^ 24
from_little_endian _ = 0

unfoldable pub of_bytes : List ℕ → DirEntry
of_bytes bytes = record { name = take 28 bytes; inode_number = from_little_endian (drop 28 bytes) }

-- `name`: without a zero the search runs out of the array.
abbrev up_to_zero : List ℕ → Run (List ℕ)
up_to_zero [] = panic
up_to_zero (b ∷ bytes) =
    let rest = up_to_zero bytes in if b == 0 then done [] else (rest >>= λ r. done (b ∷ r))

unfoldable pub entry_name : DirEntry → Run (List ℕ)
entry_name e = up_to_zero e.name

up_to_zero-append :
    (xs : List ℕ) (n : ℕ) → contains xs 0 ≡ false → up_to_zero (xs ++ replicate (suc n) 0) ≡ done xs
up_to_zero-append [] n h = refl
up_to_zero-append (x ∷ xs) n h = ground (arith, h, up_to_zero-append xs n (ground (arith, h)))

take-append {ℓ} : {A : Type ℓ} (n : ℕ) (xs ys : List A) → length xs ≡ n → take n (xs ++ ys) ≡ xs
take-append zero [] ys h = refl
take-append zero (x ∷ xs) ys h = absurd (omega (arith, h))
take-append (suc n) [] ys h = absurd (omega (arith, h))
take-append (suc n) (x ∷ xs) ys h = ap (◌∷◌ x) (take-append n xs ys (omega (arith, h)))

drop-append {ℓ} : {A : Type ℓ} (n : ℕ) (xs ys : List A) → length xs ≡ n → drop n (xs ++ ys) ≡ ys
drop-append zero [] ys h = refl
drop-append zero (x ∷ xs) ys h = absurd (omega (arith, h))
drop-append (suc n) [] ys h = absurd (omega (arith, h))
drop-append (suc n) (x ∷ xs) ys h = drop-append n xs ys (omega (arith, h))

little_endian-whole : (n : ℕ) → n < 2 ^ 32 → from_little_endian (little_endian n) ≡ n
little_endian-whole n h = omega (arith, h)

length-padded :
    (name : List ℕ) → length name ≤ 27 → length (name ++ replicate (28 - length name) 0) ≡ 28
length-padded name h = omega (
  arith,
  h,
  length-append name (replicate (28 - length name) 0),
  length-replicate {A = ℕ} (28 - length name) 0,
)

-- For a name of at most 27 bytes, none of them zero, and a 32-bit inode number, `new` does not panic,
-- and the entry that is read back from its 32 bytes has that name and that number.
pub entry_name-of_bytes :
    (name : List ℕ) (inode_number : ℕ)
    → length name ≤ name_length_limit
    → contains name 0 ≡ false
    → inode_number < 2 ^ 32
    → (e : DirEntry) × (new_entry name inode_number ≡ done e)
      × (length (as_bytes e) ≡ 32)
      × (entry_name (of_bytes (as_bytes e)) ≡ done name)
      × ((of_bytes (as_bytes e)).inode_number ≡ inode_number)
unfolding new_entry as_bytes of_bytes entry_name
entry_name-of_bytes name inode_number l z h = (
  record { name = padded; inode_number = inode_number },
  ground (arith, l),
  omega (arith, length-append padded (little_endian inode_number), length-padded name l),
  ap up_to_zero (take-append 28 padded (little_endian inode_number) (length-padded name l))
      ∙ ap (λ (n : ℕ). up_to_zero (name ++ replicate n 0)) (one_zero)
      ∙ up_to_zero-append name (27 - length name) z,
  ap from_little_endian (drop-append 28 padded (little_endian inode_number) (length-padded name l))
      ∙ little_endian-whole inode_number h,
)
  where
    padded : List ℕ
    padded = name ++ replicate (28 - length name) 0

    one_zero : 28 - length name ≡ suc (27 - length name)
    one_zero = omega (arith, l)
