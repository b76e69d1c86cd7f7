-- ===== src/Config/Storage/Reads.antt =====
-- What a chain of reads takes from the buffer.
use industrial_edge_monitor.Base.{
  ℕ, ◌+◌, ◌-◌, ◌*◌, ◌/◌, ◌^◌, ◌<◌, ◌≡◌, ◌∙◌, ap, sym, subst, refl, false, some, arith, List, ◌++◌,
  ◌||◌, ltb, length, length-append, take-append, drop-append, append_assoc, u8, get_or,
  bit_or_field,
}
use industrial_edge_monitor.Config.Storage.{
  Reader, Read, ◌>>=◌, give, read_bytes, read_u8, read_u32, bytes_u8, bytes_u32, decode_u32,
}

-- The reader with `seen` behind it and `rest` before it.
abbrev pub reader_at : List ℕ → List ℕ → Reader
reader_at seen rest = record {
  contents = seen ++ rest;
  size = length seen + length rest;
  offset = length seen;
}

-- In front of these bytes the read yields the value and moves behind them.
pub record Reads {A : Type 0} (p : Read A) (v : A) (bytes : List ℕ) : Type 0 where
  pub found :
      (seen rest : List ℕ)
      → p (reader_at seen (bytes ++ rest)) ≡ some (v, reader_at (seen ++ bytes) rest)

pub reader_ext :
    (r s : Reader) → r.contents ≡ s.contents → r.size ≡ s.size → r.offset ≡ s.offset → r ≡ s
reader_ext r s p q t i = record { contents = p i; size = q i; offset = t i }

reader_at-move :
    (bytes seen rest : List ℕ) (n : ℕ)
    → n ≡ length bytes
    → ◌≡◌ {A = Reader}
        (record {
          contents = seen ++ (bytes ++ rest);
          size = length seen + length (bytes ++ rest);
          offset = length seen + n;
        })
        (reader_at (seen ++ bytes) rest)
reader_at-move bytes seen rest n e =
    reader_ext _ _ (sym (append_assoc seen bytes rest))
      (omega (arith, length-append bytes rest, length-append seen bytes))
      (omega (arith, length-append seen bytes))

pub read_bytes-Reads :
    (bytes : List ℕ) (n : ℕ) → length bytes ≡ n → Reads (read_bytes n) bytes bytes
unfolding read_bytes
read_bytes-Reads bytes n e = record {
  found = λ seen rest.
      let guard : (ltb (length seen + length (bytes ++ rest)) (length seen)
            || ltb (length seen + length (bytes ++ rest) - length seen) n)
          ≡ false =
        ground (arith, length-append bytes rest) in
      rw (guard, drop-append seen (bytes ++ rest), ← e, take-append bytes rest)
        (ap (λ r. some (bytes, r)) (reader_at-move bytes seen rest (length bytes) refl));
}

>>=-some :
    {A B : Type 0} (p : Read A) (q : A → Read B) (r r' : Reader) (v : A)
    → p r ≡ some (v, r')
    → (p >>= q) r ≡ q v r'
>>=-some p q r r' v e = rw (e, ◌>>=◌) refl

infixr 35 ◌reading◌then◌
pub ◌reading◌then◌ :
    {A B : Type 0} {p : Read A} {v : A} {w : B} {a b : List ℕ}
    → Reads p v a
    → (q : A → Read B) → Reads (q v) w b
    → Reads (p >>= q) w (a ++ b)
◌reading◌then◌ {p = p} {v = v} {w = w} {a = a} {b = b} rp q rq = record {
  found = λ seen rest.
      ap (λ (t : List ℕ). (p >>= q) (reader_at seen t)) (append_assoc a b rest)
      ∙ >>=-some p q _ _ v (rp.found seen (b ++ rest))
      ∙ rq.found (seen ++ a) rest
      ∙ ap (λ (t : List ℕ). some (w, reader_at t rest)) (append_assoc seen a b);
}

-- The last read of a chain, whose value is only put into the result.
pub last-Reads :
    {A B : Type 0} {p : Read A} (f : A → B) {v : A} {a : List ℕ}
    → Reads p v a
    → Reads (p >>= λ x. give (f x)) (f v) a
last-Reads {p = p} f {v = v} rp = record {
  found = λ seen rest. >>=-some p (λ x. give (f x)) _ _ v (rp.found seen rest);
}

pub decode_u32-bytes : (v : ℕ) → v < 2 ^ 32 → decode_u32 (bytes_u32 v) 0 ≡ v
unfolding decode_u32
decode_u32-bytes v fits =
    rw
      (
        bit_or_field 8 (u8 v) (u8 (v / 2 ^ 8)) (omega arith),
        bit_or_field 16 (u8 v + u8 (v / 2 ^ 8) * 2 ^ 8) (u8 (v / 2 ^ 16)) (omega arith),
        bit_or_field 24 (u8 v + u8 (v / 2 ^ 8) * 2 ^ 8 + u8 (v / 2 ^ 16) * 2 ^ 16) (u8 (v / 2 ^ 24))
            (omega arith),
      )
      (omega arith)

pub read_u32-Reads : (v : ℕ) → v < 2 ^ 32 → Reads read_u32 v (bytes_u32 v)
unfolding read_u32
read_u32-Reads v fits =
    subst (λ (u : ℕ). Reads read_u32 u (bytes_u32 v)) (decode_u32-bytes v fits)
      (last-Reads (λ bytes. decode_u32 bytes 0) (read_bytes-Reads (bytes_u32 v) 4 refl))

pub read_u8-Reads : (v : ℕ) → v < 2 ^ 8 → Reads read_u8 v (bytes_u8 v)
unfolding read_u8
read_u8-Reads v fits =
    subst (λ (u : ℕ). Reads read_u8 u (bytes_u8 v)) (omega arith)
      (last-Reads (λ bytes. get_or bytes 0 0) (read_bytes-Reads (bytes_u8 v) 1 refl))
