-- ===== src/Writer/Durable.antt =====
-- A checkpoint never gets ahead of the data: whatever fails, and whatever arrives in whatever order, it
-- follows a sync, and every byte that it records was in the set at the start or was written before
-- that sync.
use ai_gen.Prelude.{◌+◌, List, [], ◌∷◌, length, IsU64}
use ai_gen.RangeSet.{RangeSet}
use ai_gen.Writer.{Writer, WriteMsg, data_msg, sync, finish, Run, Arrival}
use ai_gen.Writer.Effects.{Inv}

-- The steps of a run keep the invariant of the writer.
abbrev Kept : RangeSet → Run → Type 0
Kept initial r = Inv initial r.writer

abbrev pub MsgFits : WriteMsg → Type 0
MsgFits (data_msg c) = IsU64 (c.offset + length c.bytes)
MsgFits sync = Unit {0}
MsgFits finish = Unit {0}

abbrev pub AllMsgFit : List Arrival → Type 0
AllMsgFit [] = Unit {0}
AllMsgFit (a ∷ later) = MsgFits a.msg × AllMsgFit later
