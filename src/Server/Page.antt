-- ===== src/Server/Page.antt =====
-- chat_page.go, the loop of sendMessage in the page's script: it cuts the stream into lines and
-- delivers an event at each empty line. Bytes stand for the decoded characters: the script looks for
-- ASCII characters only.
use go_debug_agent.Prelude.{
  ℕ, Bool, false, ◌&&◌, ◌||◌, List, [], ◌∷◌, ◌++◌, leb, ◌==◌, if◌then◌else◌, is_empty, drop,
}
use go_debug_agent.Prelude.Text.{Text, ascii, text_eq, has_prefix}
use go_debug_agent.Server.Sse.{Frame}

-- buffer.split('\n'), with the last part, which pop takes off, apart.
pub record Lines : Type 0 where
  pub whole : List Text
  pub rest : Text

unfoldable pub prepend : ℕ → Lines → Lines
prepend c p = elim p.whole [
  | [] ↦ record { whole = []; rest = c ∷ p.rest }
  | line ∷ lines ↦ record { whole = (c ∷ line) ∷ lines; rest = p.rest }
]

unfoldable pub split_lines : Text → Lines
split_lines [] = record { whole = []; rest = [] }
split_lines (c ∷ s) =
    let p = split_lines s in
    if c == 10 then record { whole = [] ∷ p.whole; rest = p.rest } else prepend c p

-- line.replace(/\r$/, '')
unfoldable pub strip_cr : Text → Text
strip_cr [] = []
strip_cr (c ∷ s) = if is_empty s && c == 13 then [] else c ∷ strip_cr s

-- The ASCII characters that trim takes off.
is_space : ℕ → Bool
is_space c = c == 32 || leb 9 c && leb c 13

trim_start : Text → Text
trim_start [] = []
trim_start (c ∷ s) = if is_space c then trim_start s else c ∷ s

trim_end : Text → Text
trim_end [] = []
trim_end (c ∷ s) = let t = trim_end s in if is_empty t && is_space c then [] else c ∷ t

unfoldable pub trim : Text → Text
unfolding is_space trim_start trim_end
trim s = trim_end (trim_start s)

-- currentEvent, currentData, streamDone, and the events delivered so far.
pub record PageState : Type 0 where
  pub event : Text
  pub body : Text
  pub stream_done : Bool
  pub delivered : List Frame

unfoldable pub data_part : Text → Text
data_part part = if has_prefix part (ascii " ") then drop 1 part else part

unfoldable pub take_data : PageState → Text → PageState
take_data st part = record st {
  body = (if is_empty st.body then [] else st.body ++ 10 ∷ []) ++ data_part part;
}

unfoldable pub deliver : PageState → PageState
deliver st = record {
  event = [];
  body = [];
  stream_done = st.stream_done || text_eq st.event (ascii "done");
  delivered = st.delivered ++ record { event = st.event; body = st.body } ∷ [];
}

-- The body of the loop over the lines.
unfoldable pub read_trimmed : PageState → Text → PageState
read_trimmed st trimmed =
    if has_prefix trimmed (ascii "event:")
    then record st { event = trim (drop 6 trimmed) }
    else (if has_prefix trimmed (ascii "data:")
        then take_data st (drop 5 trimmed)
        else (if is_empty trimmed then deliver st else st))

unfoldable pub read_page_lines : PageState → List Text → PageState
read_page_lines st [] = st
read_page_lines st (line ∷ lines) = read_page_lines (read_trimmed st (strip_cr line)) lines

pub record Reader : Type 0 where
  pub buffer : Text
  pub page : PageState

-- A turn of the loop over the reads, with what the read gave.
unfoldable pub read_bytes : Reader → Text → Reader
read_bytes r value =
    if r.page.stream_done
    then r
    else (let p = split_lines (r.buffer ++ value) in
        record { buffer = p.rest; page = read_page_lines r.page p.whole })

abbrev pub reader_start : Reader
reader_start = record {
  buffer = [];
  page = record { event = []; body = []; stream_done = false; delivered = [] };
}
