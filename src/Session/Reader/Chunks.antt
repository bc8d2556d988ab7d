-- ===== src/Session/Reader/Chunks.antt =====
-- servers/chat/network/CSession.cpp: asyncReadFull and asyncReadLen, which gather the bytes of one
-- read from what the socket has at each turn.
use mathlib.Core.List.{append_assoc}
use distributed_chat_system.Prelude.{
  ℕ, ◌+◌, ◌≤◌, ◌≡◌, inl, inr, refl, sym, ◌∙◌, Bool, true, false, ◌||◌, Option, none, some, List, [],
  ◌∷◌, ◌++◌, ◌==◌, leb, ltb, length, if◌then◌else◌, arith, length-append, Bool-cases,
}
use distributed_chat_system.Wire.{max_file_frame_length}

-- What one async_read_some brought: bytes, and whether it ended with an error.
pub record Chunk : Type 0 where
  pub failed : Bool
  pub got : List ℕ

-- The handler's arguments: an error or not, and the bytes transferred. `none` while the read lasts.
abbrev pub Result : Type 0
Result = Option (Bool × List ℕ)

unfoldable pub async_read_len : List ℕ → ℕ → List Chunk → Result
async_read_len filled total [] = none
async_read_len filled total (c ∷ cs) =
    let filled' = filled ++ c.got in
    let rest = async_read_len filled' total cs in
    if c.failed
    then some (true, filled')
    else (if leb total (length filled') then some (false, filled') else rest)

unfoldable pub async_read_full : ℕ → List Chunk → Result
async_read_full max_len cs =
    if (max_len == 0) || ltb max_file_frame_length max_len
    then some (true, [])
    else async_read_len [] max_len cs

-- The socket transfers no more than the buffer that it is given holds.
abbrev pub Fits : ℕ → ℕ → List Chunk → Type 0
Fits filled total [] = Unit {0}
Fits filled total (c ∷ cs) = (filled + length c.got ≤ total) × Fits (filled + length c.got) total cs

-- The bytes that the socket delivers, one chunk after the other.
abbrev pub all_bytes : List Chunk → List ℕ
all_bytes [] = []
all_bytes (c ∷ cs) = c.got ++ all_bytes cs

pub record IsPart (filled : List ℕ) (total : ℕ) (cs : List Chunk) (failed : Bool) (bytes : List ℕ)
    : Type 0 where
  pub rest : List ℕ
  pub prefix : filled ++ all_bytes cs ≡ bytes ++ rest
  pub short : length bytes ≤ total
  pub whole : failed ≡ false → length bytes ≡ total

ended-IsPart :
    (filled : List ℕ) (total : ℕ) (c : Chunk) (cs : List Chunk) (failed : Bool) (bytes : List ℕ)
    → filled ++ c.got ≡ bytes
    → length filled + length c.got ≤ total
    → (failed ≡ false → total ≤ length (filled ++ c.got))
    → IsPart filled total (c ∷ cs) failed bytes
ended-IsPart filled total c cs failed bytes e fits whole = rw (← e) (record {
  rest = all_bytes cs;
  prefix = sym (append_assoc filled c.got (all_bytes cs));
  short = omega (arith, length-append filled c.got);
  whole = λ f. omega (arith, whole f, length-append filled c.got);
})

async_read_len-IsPart :
    (filled : List ℕ) (total : ℕ) (cs : List Chunk) (failed : Bool) (bytes : List ℕ)
    → Fits (length filled) total cs
    → async_read_len filled total cs ≡ some (failed, bytes)
    → IsPart filled total cs failed bytes
unfolding async_read_len
async_read_len-IsPart filled total [] failed bytes fits e = absurd (ground arith)
async_read_len-IsPart filled total (c ∷ cs) failed bytes fits e = elim (Bool-cases c.failed) [
  | inl bad ↦
      ended-IsPart filled total c cs failed bytes (ground arith) fits.0 (λ f. absurd (ground arith))
  | inr good ↦ elim (Bool-cases (leb total (length (filled ++ c.got)))) [
    | inl full ↦
        ended-IsPart filled total c cs failed bytes (ground arith) fits.0 (λ f. ground arith)
    | inr part ↦
        let p =
          async_read_len-IsPart (filled ++ c.got) total cs failed bytes
            (rw (length-append filled c.got) fits.1) (ground arith) in
        record {
          rest = p.rest;
          prefix = sym (append_assoc filled c.got (all_bytes cs)) ∙ p.prefix;
          short = p.short;
          whole = p.whole;
        }
  ]
]

-- When the socket never transfers more than the buffer has room for, a read that ends hands over a
-- beginning of what the socket delivers: without an error exactly the bytes that were asked for,
-- with an error no more than these.
pub async_read_full-IsPart :
    (max_len : ℕ) (cs : List Chunk) (failed : Bool) (bytes : List ℕ)
    → Fits 0 max_len cs
    → async_read_full max_len cs ≡ some (failed, bytes)
    → (length bytes ≤ max_len)
      × (failed ≡ false → length bytes ≡ max_len)
      × ((rest : List ℕ) × (all_bytes cs ≡ bytes ++ rest))
unfolding async_read_full
async_read_full-IsPart max_len cs failed bytes fits e =
    elim (Bool-cases ((max_len == 0) || ltb max_file_frame_length max_len)) [
      | inl bad ↦
          let h : ([] ≡ bytes) × (true ≡ failed) = ground arith in
          rw (← h.0, ← h.1) (omega arith, (λ f. absurd (ground arith)), (all_bytes cs, refl))
      | inr good ↦
          let p = async_read_len-IsPart [] max_len cs failed bytes fits (ground arith) in
          (p.short, p.whole, (p.rest, p.prefix))
    ]
