-- ===== src/Server/Body.antt =====
-- crates/swiftload-testserver/src/lib.rs: `body_stream`, the bytes of a reply.
use ai_gen.Prelude.{
  ℕ, zero, suc, ◌*◌, Bool, false, Option, none, some, List, [], ◌++◌, leb, if◌then◌else◌, add64,
  sub64, min64,
}
use ai_gen.Content
use ai_gen.Server.{AppState, Scenario}

abbrev pub chunk_size : ℕ
chunk_size = 64 * 1024

-- How a body ends: by its length, by a stall, by a reset, or not yet.
pub data Ending : Type 0 where
  complete stalled reset unread : Ending

pub record Served : Type 0 where
  pub state : AppState
  pub bytes : List ℕ
  pub ending : Ending

abbrev pub reached : Option ℕ → ℕ → Bool
reached none sent = false
reached (some at) sent = leb at sent

abbrev pub counted_reset : AppState → AppState
counted_reset st = record st {
  stats = record st.stats { resets_injected = add64 st.stats.resets_injected 1 };
}

abbrev pub counted_bytes : ℕ → AppState → AppState
counted_bytes n st = record st {
  stats = record st.stats { bytes_served = add64 st.stats.bytes_served n };
}

-- The stream's state is dropped with it, and then it is not live.
abbrev pub closed : AppState → AppState
closed st = record st { live_streams = sub64 st.live_streams 1 }

abbrev pub ends : AppState → Ending → Served
ends st e = record { state = closed st; bytes = []; ending = e }

abbrev pub then_bytes : List ℕ → Served → Served
then_bytes bs s = record s { bytes = bs ++ s.bytes }

-- The stream is read at most `polls` times; nothing else is done to the state meanwhile.
unfoldable pub body_loop : (polls : ℕ) → AppState → Scenario → (start len sent : ℕ) → Served
unfolding Content.chunk
body_loop zero st sc start len sent = record { state = st; bytes = []; ending = unread }
body_loop (suc polls) st sc start len sent =
    let n = min64 chunk_size (sub64 len sent) in
    let rest = body_loop polls (counted_bytes n st) sc start len (add64 sent n) in
    if leb len sent
    then ends st complete
    else if reached sc.stall_after sent
    then ends st stalled
    else if reached sc.reset_at sent
    then ends (counted_reset st) reset
    else then_bytes (Content.chunk sc.seed (add64 start sent) n) rest

unfoldable pub body_stream : (polls : ℕ) → AppState → Scenario → (start len : ℕ) → Served
unfolding body_loop
body_stream polls st sc start len = body_loop polls st sc start len 0
