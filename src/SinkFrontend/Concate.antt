-- ===== src/SinkFrontend/Concate.antt =====
-- sinks/sink_frontend.cpp: what a sink writes for a batch of messages.
use deeplog.Base.{List, Result, [], err, if◌then◌else◌, leb, ok, ℕ, ◌++◌, ◌∷◌, ◌≡◌}
use deeplog.Errc.{Errc}
use deeplog.SerializedMessages.{MessageInfo, unknown, record_info, span_start, span_end, malformed}
use deeplog.SinkFrontend.{Backend, copy_message}

-- The text that a threshold lets through: the records at or above it, and all that is no record.
pub passed : ℕ → List MessageInfo → List ℕ
passed threshold [] = []
passed threshold (record_info bytes timestamp severity ∷ messages) =
    let others = passed threshold messages in
    if leb threshold severity then bytes ++ others else others
passed threshold (unknown bytes ∷ messages) = bytes ++ passed threshold messages
passed threshold (span_start bytes ∷ messages) = bytes ++ passed threshold messages
passed threshold (span_end bytes ∷ messages) = bytes ++ passed threshold messages
passed threshold (malformed bytes ∷ messages) = bytes ++ passed threshold messages

module _ {S : Type 0} (content : S → List ℕ) where
  -- A success appends the text, a failure a part of it.
  unfoldable pub Appended : S → List ℕ → Result Errc (Unit {0}) × S → Type 0
  Appended s text (ok _, s') = content s' ≡ content s ++ text
  Appended s text (err e, s') =
      (start : List ℕ) × (rest : List ℕ) × (content s' ≡ content s ++ start)
      × (text ≡ start ++ rest)

module _ {S : Type 0} (b : Backend S) (content : S → List ℕ)
    (appends : (bytes : List ℕ) (s : S) → Appended content s bytes (b.bulk_write bytes s)) where
  -- One message, and the text of the others behind it.
  Step : ℕ → MessageInfo → Type 0
  Step threshold message =
      (text : List ℕ) × ((s : S) → Appended content s text (copy_message b threshold message s))
      × ((messages : List MessageInfo)
          → passed threshold (message ∷ messages) ≡ text ++ passed threshold messages)
