-- ===== src/Server/Chunks.antt =====
-- The script of chat_page.go and the network: the reads of a stream, and line feeds in its data.
use mathlib.Core.Bool.{false≢true}
use go_debug_agent.Prelude.{
  ℕ, ◌≡◌, refl, sym, ap, ◌∙◌, true, false, List, [], ◌∷◌, ◌++◌, append_assoc, append-nil, arith,
  inl, inr, is_empty, Bool-cases, ◌==◌,
}
use go_debug_agent.Prelude.Text.{Text, ascii, has_prefix}
use go_debug_agent.Engine.Types.{on_error}
use go_debug_agent.Server.Sse.{Frame, SseJson, write, frame_of, write_all}
use go_debug_agent.Server.Page.{
  Lines, prepend, split_lines, strip_cr, trim, PageState, deliver, read_trimmed, read_page_lines,
  Reader, read_bytes, reader_start,
}
use go_debug_agent.Server.Transport.{
  is_plain, ahead, split_lines-line, strip_cr-plain, read_event, read_data_line,
}

abbrev pub followed : Lines → Lines → Lines
followed p q = record { whole = p.whole ++ q.whole; rest = q.rest }

prepend-followed :
    (c : ℕ) (p : Lines) (b : Text)
    → (c == 10) ≡ false
    → prepend c (followed p (split_lines (p.rest ++ b)))
      ≡ followed (prepend c p) (split_lines ((prepend c p).rest ++ b))
unfolding prepend split_lines
prepend-followed c p b h = go p.whole refl
  where
    go :
        (ls : List Text)
        → p.whole ≡ ls
        → prepend c (followed p (split_lines (p.rest ++ b)))
          ≡ followed (prepend c p) (split_lines ((prepend c p).rest ++ b))
    go [] e = ground (arith, h)
    go (l ∷ ls) e = ground (arith, h)

pub split_lines-append :
    (a b : Text)
    → split_lines (a ++ b) ≡ followed (split_lines a) (split_lines ((split_lines a).rest ++ b))
unfolding split_lines
split_lines-append [] b = refl
split_lines-append (c ∷ a) b = elim (Bool-cases (c == 10)) [
  | inl e ↦ ground (arith, e, split_lines-append a b)
  | inr e ↦ ground (arith, split_lines-append a b, prepend-followed c (split_lines a) b e)
]

read_page_lines-append :
    (st : PageState) (xs ys : List Text)
    → read_page_lines st (xs ++ ys) ≡ read_page_lines (read_page_lines st xs) ys
unfolding read_page_lines
read_page_lines-append st [] ys = refl
read_page_lines-append st (x ∷ xs) ys = read_page_lines-append (read_trimmed st (strip_cr x)) xs ys

read_open :
    (r : Reader) (value : Text)
    → r.page.stream_done ≡ false
    → read_bytes r value ≡ record {
      buffer = (split_lines (r.buffer ++ value)).rest;
      page = read_page_lines r.page (split_lines (r.buffer ++ value)).whole;
    }
unfolding read_bytes
read_open r value e = ground (arith, e)

read_done : (r : Reader) (value : Text) → r.page.stream_done ≡ true → read_bytes r value ≡ r
unfolding read_bytes
read_done r value e = ground (arith, e)

-- It makes no difference where the network cuts the stream, as long as the page has not met the
-- event `done`: two reads leave what one read of both leaves.
pub read_bytes-append :
    (r : Reader) (a b : Text)
    → (read_bytes r a).page.stream_done ≡ false
    → read_bytes (read_bytes r a) b ≡ read_bytes r (a ++ b)
read_bytes-append r a b open_stream = elim (Bool-cases r.page.stream_done) [
  | inl e ↦
      absurd (false≢true (sym open_stream ∙ ap (λ x. x.page.stream_done) (read_done r a e) ∙ e))
  | inr e ↦ ground (
    arith,
    read_open r a e,
    read_open (read_bytes r a) b open_stream,
    read_open r (a ++ b) e,
    append_assoc r.buffer a b,
    split_lines-append (r.buffer ++ a) b,
    read_page_lines-append r.page (split_lines (r.buffer ++ a)).whole
        (split_lines ((split_lines (r.buffer ++ a)).rest ++ b)).whole,
  )
]

-- The lines of an error message with a line feed.
error_lines :
    (json : SseJson) (a b : Text)
    → is_plain a ≡ true
    → is_plain b ≡ true
    → (split_lines (write_all json (on_error (a ++ 10 ∷ b) ∷ []))).whole
      ≡ ascii "event: error" ∷ (ascii "data: " ++ a) ∷ b ∷ [] ∷ []
unfolding write_all frame_of write split_lines
error_lines json a b pa pb =
    let rest : Text = a ++ 10 ∷ (b ++ 10 ∷ 10 ∷ []) in
    let same : write_all json (on_error (a ++ 10 ∷ b) ∷ [])
        ≡ ascii "event: error" ++ 10 ∷ (ascii "data: " ++ rest) =
      simp (append_assoc, append-nil) refl in
    ap (λ p. p.whole)
      (ap split_lines same
        ∙ split_lines-line (ascii "event: error")
            (ascii "data: " ++ (a ++ 10 ∷ (b ++ 10 ∷ 10 ∷ []))) refl
        ∙ ap (ahead (ascii "event: error")) (
            split_lines-line (ascii "data: " ++ a) (b ++ 10 ∷ 10 ∷ []) pa
            ∙ ap (ahead (ascii "data: " ++ a)) (split_lines-line b (10 ∷ []) pb)))

read_trimmed_other :
    (st : PageState) (b : Text)
    → is_plain b ≡ true
    → is_empty b ≡ false
    → has_prefix b (ascii "event:") ≡ false
    → has_prefix b (ascii "data:") ≡ false
    → read_trimmed st (strip_cr b) ≡ st
unfolding read_trimmed
read_trimmed_other st b pb nb ne nd = rw (strip_cr-plain b pb) (ground (arith, nb, ne, nd))

-- An error message with a line feed is cut: where the line after it is none of the stream's own, the
-- page shows the part before the line feed.
pub read_bytes_error_line :
    (json : SseJson) (a b : Text)
    → is_plain a ≡ true
    → is_plain b ≡ true
    → is_empty b ≡ false
    → has_prefix b (ascii "event:") ≡ false
    → has_prefix b (ascii "data:") ≡ false
    → (read_bytes reader_start (write_all json (on_error (a ++ 10 ∷ b) ∷ []))).page.delivered
      ≡ record { event = ascii "error"; body = a } ∷ []
unfolding read_bytes read_page_lines
read_bytes_error_line json a b pa pb nb ne nd =
    let f : Frame = record { event = ascii "error"; body = a } in
    let st = reader_start.page in
    ap (λ ls. (read_page_lines st ls).delivered) (error_lines json a b pa pb)
    ∙ ap
        (λ x.
          (read_trimmed
            (read_trimmed (read_trimmed x (strip_cr (ascii "data: " ++ a))) (strip_cr b))
            (strip_cr [])).delivered)
        (read_event st f (refl, unfold trim in refl))
    ∙ ap (λ x. (read_trimmed (read_trimmed x (strip_cr b)) (strip_cr [])).delivered)
        (read_data_line (record st { event = f.event }) f refl pa)
    ∙ ap (λ x. (read_trimmed x (strip_cr [])).delivered)
        (read_trimmed_other (record st { event = f.event; body = a }) b pb nb ne nd)
    ∙ unfold strip_cr read_trimmed has_prefix deliver in refl
