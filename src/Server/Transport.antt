-- ===== src/Server/Transport.antt =====
-- From sseCallback of middleware.go to the script of chat_page.go.
use go_debug_agent.Prelude.{
  ◌≡◌, refl, sym, ap, ◌∙◌, Bool, true, ◌&&◌, ◌||◌, not, List, [], ◌∷◌, ◌++◌, map, append_assoc,
  append-nil, All, arith, ◌==◌,
}
use go_debug_agent.Prelude.Text.{Text, ascii, has_prefix, text_eq}
use go_debug_agent.Engine.Types.{
  Callback, on_content, on_tool_start, on_tool_result, on_complete, on_error, on_context_compressed,
}
use go_debug_agent.Server.Sse.{Frame, SseJson, write, frame_of, write_all}
use go_debug_agent.Server.Page.{
  Lines, prepend, split_lines, strip_cr, trim, PageState, data_part, take_data, deliver,
  read_trimmed, read_page_lines, read_bytes, reader_start,
}

-- No line feed and no carriage return.
abbrev pub is_plain : Text → Bool
is_plain [] = true
is_plain (c ∷ s) = not (c == 10 || c == 13) && is_plain s

abbrev pub ahead : Text → Lines → Lines
ahead line p = record { whole = line ∷ p.whole; rest = p.rest }

pub split_lines-line :
    (line s : Text)
    → is_plain line ≡ true
    → split_lines (line ++ 10 ∷ s) ≡ ahead line (split_lines s)
unfolding split_lines prepend
split_lines-line [] s h = refl
split_lines-line (c ∷ line) s h = ground (arith, split_lines-line line s (ground arith))

pub strip_cr-plain : (s : Text) → is_plain s ≡ true → strip_cr s ≡ s
unfolding strip_cr
strip_cr-plain [] h = refl
strip_cr-plain (c ∷ s) h = ground (arith, strip_cr-plain s (ground arith))

-- The lines of a written event, before those of what follows.
split_lines-write :
    (f : Frame) (s : Text)
    → is_plain f.event ≡ true
    → is_plain f.body ≡ true
    → split_lines (write f ++ s)
      ≡ ahead
          (ascii "event: " ++ f.event)
          (ahead (ascii "data: " ++ f.body) (ahead [] (split_lines s)))
unfolding write
split_lines-write f s he hd =
    ap split_lines (simp append_assoc refl)
    ∙ split_lines-line (ascii "event: " ++ f.event) (ascii "data: " ++ (f.body ++ 10 ∷ 10 ∷ s)) he
    ∙ ap (ahead (ascii "event: " ++ f.event)) (
        split_lines-line (ascii "data: " ++ f.body) (10 ∷ s) hd
        ∙ ap (ahead (ascii "data: " ++ f.body)) (split_lines-line [] s refl))

-- Between two events.
record IsIdle (st : PageState) : Type 0 where
  no_event : st.event ≡ []
  no_body : st.body ≡ []

-- The page reads the name of the event back.
abbrev pub IsNamed : Frame → Type 0
IsNamed f = (is_plain f.event ≡ true) × (trim (32 ∷ f.event) ≡ f.event)

received : PageState → Frame → PageState
received st f = record {
  event = [];
  body = [];
  stream_done = st.stream_done || text_eq f.event (ascii "done");
  delivered = st.delivered ++ f ∷ [];
}

pub read_event :
    (st : PageState) (f : Frame)
    → IsNamed f
    → read_trimmed st (strip_cr (ascii "event: " ++ f.event)) ≡ record st { event = f.event }
unfolding read_trimmed has_prefix
read_event st f named = rw (strip_cr-plain (ascii "event: " ++ f.event) named.0) (rw (named.1) refl)

pub read_data_line :
    (st : PageState) (f : Frame)
    → st.body ≡ []
    → is_plain f.body ≡ true
    → read_trimmed st (strip_cr (ascii "data: " ++ f.body)) ≡ record st { body = f.body }
unfolding read_trimmed take_data data_part has_prefix
read_data_line st f none plain = rw (strip_cr-plain (ascii "data: " ++ f.body) plain) (rw none refl)

read_frame :
    (st : PageState) (f : Frame) (lines : List Text)
    → IsIdle st
    → IsNamed f
    → is_plain f.body ≡ true
    → read_page_lines st ((ascii "event: " ++ f.event) ∷ (ascii "data: " ++ f.body) ∷ [] ∷ lines)
      ≡ read_page_lines (received st f) lines
unfolding read_page_lines
read_frame st f lines idle named plain =
    ap (λ x. read_page_lines x lines)
      (ap (λ x. read_trimmed (read_trimmed x (strip_cr (ascii "data: " ++ f.body))) (strip_cr []))
          (read_event st f named)
        ∙ ap (λ x. read_trimmed x (strip_cr []))
            (read_data_line (record st { event = f.event }) f idle.no_body plain)
        ∙ unfold strip_cr read_trimmed has_prefix deliver received in refl)

-- What a page between two events makes of written events, one after another, if it is idle.
abbrev receive_all : PageState → List Frame → PageState
receive_all st [] = st
receive_all st (f ∷ fs) = receive_all (received st f) fs

abbrev pub IsSent : SseJson → List Callback → Type 0
IsSent json = All (λ c. is_plain (frame_of json c).body ≡ true)

frame_of-IsNamed : (json : SseJson) (c : Callback) → IsNamed (frame_of json c)
unfolding frame_of trim
frame_of-IsNamed json (on_content chunk) = (refl, refl)
frame_of-IsNamed json (on_tool_start name args) = (refl, refl)
frame_of-IsNamed json (on_tool_result name result) = (refl, refl)
frame_of-IsNamed json on_complete = (refl, refl)
frame_of-IsNamed json (on_error message) = (refl, refl)
frame_of-IsNamed json (on_context_compressed a b c) = (refl, refl)

read_all :
    (json : SseJson) (cs : List Callback) (st : PageState)
    → IsIdle st
    → IsSent json cs
    → (read_page_lines st (split_lines (write_all json cs)).whole
        ≡ receive_all st (map (frame_of json) cs))
      × ((split_lines (write_all json cs)).rest ≡ [])
unfolding write_all received split_lines read_page_lines
read_all json [] st idle sent = (refl, refl)
read_all json (c ∷ cs) st idle sent =
    let f = frame_of json c in
    let (ih, rest) =
      read_all json cs (received st f) (record { no_event = refl; no_body = refl }) sent.1 in
    let lines = split_lines-write f (write_all json cs) (frame_of-IsNamed json c).0 sent.0 in
    (
      ap (λ p. read_page_lines st p.whole) lines
          ∙ read_frame st f (split_lines (write_all json cs)).whole idle (frame_of-IsNamed json c)
              sent.0
          ∙ ih,
      ap (λ p. p.rest) lines ∙ rest,
    )

receive_all-delivered :
    (st : PageState) (fs : List Frame) → (receive_all st fs).delivered ≡ st.delivered ++ fs
unfolding received
receive_all-delivered st [] = sym (append-nil st.delivered)
receive_all-delivered st (f ∷ fs) =
    receive_all-delivered (received st f) fs ∙ append_assoc st.delivered (f ∷ []) fs

-- If no event's data has a line feed or a carriage return, the page delivers exactly the events that
-- the callbacks wrote, in order, and nothing is left in its buffer.
pub read_bytes-write_all :
    (json : SseJson) (cs : List Callback)
    → IsSent json cs
    → ((read_bytes reader_start (write_all json cs)).page.delivered ≡ map (frame_of json) cs)
      × ((read_bytes reader_start (write_all json cs)).buffer ≡ [])
unfolding read_bytes
read_bytes-write_all json cs sent =
    let (same, rest) =
      read_all json cs reader_start.page (record { no_event = refl; no_body = refl }) sent in
    (ap (λ st. st.delivered) same ∙ receive_all-delivered reader_start.page _, rest)
