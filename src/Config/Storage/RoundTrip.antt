-- ===== src/Config/Storage/RoundTrip.antt =====
-- A whole buffer: the header and the payload behind it.
pub mod MetaTrip
pub mod ConfigTrip
use industrial_edge_monitor.Base.{
  ℕ, zero, suc, ◌+◌, ◌≤◌, ◌≡◌, ◌∙◌, ap, ap₂, sym, refl, true, Option, none, some, arith, List, [],
  ◌∷◌, ◌++◌, drop, length, length-append, length-drop, append-nil, ◌==◌, ==_iff, EspErr, esp_ok,
}
use industrial_edge_monitor.Config.Storage.{Writer, Reader, Step, Read, header_size}
use industrial_edge_monitor.Config.Storage.Configuration.{finish_writes}
use industrial_edge_monitor.Config.Storage.Writes.{Writes, writer_at, writer_ext}
use industrial_edge_monitor.Config.Storage.Reads.{Reads, reader_at, reader_ext}

drop_all : (n : ℕ) (xs : List ℕ) → length xs ≤ n → drop n xs ≡ []
drop_all zero [] fits = refl
drop_all zero (x ∷ xs) fits = elim fits [ ]
drop_all (suc n) [] fits = refl
drop_all (suc n) (x ∷ xs) fits = drop_all n xs (omega arith)

-- Writes that fill the buffer succeed, and it then holds what they wrote.
pub finish_writes-Writes :
    {s : Step} {bytes : List ℕ} (encoded : List ℕ) (size : ℕ)
    → Writes s bytes
    → length bytes ≡ size
    → length encoded ≡ size
    → finish_writes size (s (record { contents = encoded; size = size; offset = 0 }))
      ≡ (esp_ok, bytes)
finish_writes-Writes {s} {bytes} encoded size w full room =
    let start : ◌≡◌ {A = Writer} (record { contents = encoded; size = size; offset = 0 })
        (writer_at [] encoded) =
      writer_ext _ _ refl (omega arith) refl in
    let written : s (record { contents = encoded; size = size; offset = 0 })
        ≡ (writer_at bytes (drop (length bytes) encoded), true) =
      ap s start ∙ w.wrote [] encoded (omega arith) in
    rw (written, drop_all (length bytes) encoded (omega arith), append-nil bytes)
      (rw ((==_iff (length bytes) size).1 full) refl)

-- Reads of the payload behind a header yield its value and end where the buffer ends.
pub read_payload :
    {A : Type 0} {p : Read A} {v : A} {payload : List ℕ} (header : List ℕ) (size : ℕ)
    → Reads p v payload
    → length header ≡ header_size
    → size ≡ header_size + length payload
    → p (record { contents = header ++ payload; size = size; offset = header_size })
      ≡ some (v, reader_at (header ++ payload) [])
read_payload {p = p} {v = v} {payload = payload} header size r l e =
    let start : ◌≡◌ {A = Reader}
        (record { contents = header ++ payload; size = size; offset = header_size })
        (reader_at header (payload ++ [])) =
      reader_ext _ _ (ap (λ (ys : List ℕ). header ++ ys) (sym (append-nil payload)))
        (omega (arith, length-append payload [])) (sym l) in
    ap p start ∙ r.found header []
