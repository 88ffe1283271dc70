-- ===== src/Sending/Chunks.antt =====
-- src/message/services/message.service.ts, lines 870 to 872: the number of transactions of a text.
use nestjs_ex.Prelude.{arith, length, ℕ, ◌*◌, ◌≤◌}
use nestjs_ex.Sending.{max_message_length, number_of_txs}

-- The number of transactions is the least that is at least one and whose texts, each of at most
-- `MAX_MESSAGE_LENGTH` units, hold the whole content.
pub number_of_txs_least :
    (length : ℕ)
    → (1 ≤ number_of_txs length)
      × (length ≤ number_of_txs length * max_message_length)
      × ((k : ℕ) → 1 ≤ k → length ≤ k * max_message_length → number_of_txs length ≤ k)
unfolding number_of_txs
number_of_txs_least length = (ground arith, ground arith, λ k h1 h2. ground arith)
