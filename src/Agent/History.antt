-- ===== src/Agent/History.antt =====
-- The history of a conversation in src/agent.c: `add_user_text`, `conv_fit` and `trim_history`.
-- A message is one of the three shapes that the file puts into the array: a user turn with a text,
-- a user turn with the results of tool calls, and an assistant turn as the provider returned it.
pub mod Paired
pub mod Rounds
pub mod Fitted
pub mod Trimmed
pub mod Budget
use shclaw.Base.{
  ℕ, zero, suc, ◌+◌, ◌-◌, ◌/◌, Bool, true, false, not, ◌&&◌, ◌||◌, Option, none, some, List, [],
  ◌∷◌, ◌++◌, leb, ltb, ◌==◌, if◌then◌else◌, Bytes, codes, snprintf, take, length,
}
use shclaw.Util.Utf8.{utf8_prefix}

pub record Result : Type 0 where
  pub tool_use_id : Bytes
  pub content : Bytes
  pub is_error : Bool

-- A block of the provider's: the id of a tool call where it is one, its member `content` where that
-- is a string, and the JSON text of the rest of it
pub record Block : Type 0 where
  pub tool_use : Option Bytes
  pub content : Option Bytes
  pub rest : Bytes

pub data Message : Type 0 where
  user_text : Bytes → Message
  tool_results : List Result → Message
  assistant : List Block → Message

unfoldable pub add_user_text : List Message → Bytes → List Message
add_user_text messages text = messages ++ user_text text ∷ []

-- The messages in front of the first user turn with a text, and those from it on
unfoldable pub next_turn : List Message → List Message × List Message
next_turn [] = ([], [])
next_turn (user_text t ∷ ms) = ([], user_text t ∷ ms)
next_turn (tool_results rs ∷ ms) = (tool_results rs ∷ (next_turn ms).0, (next_turn ms).1)
next_turn (assistant bs ∷ ms) = (assistant bs ∷ (next_turn ms).0, (next_turn ms).1)

-- `kept` stands in front of the place `from`, the list begins at the place `to`; `none` is `to < 0`.
abbrev pub drop_to : List Message → List Message → Option (List Message)
drop_to kept [] = none
drop_to kept (u ∷ ms) = some (kept ++ u ∷ ms)

-- The list begins at the place `from`.
unfoldable pub drop_from : List Message → List Message → Option (List Message)
unfolding next_turn
drop_from kept [] = none
drop_from kept (u ∷ ms) = drop_to kept (next_turn ms).1

-- The messages without their oldest exchange but the first, where one is left behind it
unfoldable pub drop_exchange : List Message → Option (List Message)
unfolding drop_from next_turn
drop_exchange [] = none
drop_exchange (m ∷ ms) = drop_from (m ∷ (next_turn ms).0) (next_turn ms).1

-- `size` is the length of what `cJSON_PrintUnformatted` prints; each round takes one unit of fuel.
unfoldable pub conv_fit : (List Message → ℕ) → ℕ → ℕ → List Message → List Message × Bool
unfolding drop_exchange
conv_fit size zero max messages = (messages, false)
conv_fit size (suc fuel) max messages =
    if leb (size messages) max then (messages, true) else elim (drop_exchange messages) [
      | none ↦ (messages, false)
      | some fewer ↦ conv_fit size fuel max fewer
    ]

abbrev pub text_length : Option Bytes → ℕ
text_length none = 0
text_length (some c) = length c

unfoldable pub results_total : List Result → ℕ
results_total [] = 0
results_total (r ∷ rs) = length r.content + results_total rs

unfoldable pub blocks_total : List Block → ℕ
blocks_total [] = 0
blocks_total (b ∷ bs) = text_length b.content + blocks_total bs

unfoldable pub message_total : Message → ℕ
unfolding results_total blocks_total
message_total (user_text t) = 0
message_total (tool_results rs) = results_total rs
message_total (assistant bs) = blocks_total bs

unfoldable pub total_of : List Message → ℕ
unfolding message_total
total_of [] = 0
total_of (m ∷ ms) = message_total m + total_of ms

-- `decimal` is the `%zu` of the C library.
unfoldable pub shorter : (ℕ → Bytes) → Bytes → Bytes
unfolding utf8_prefix
shorter decimal c =
    let keep : ℕ = utf8_prefix c 200 in
    snprintf 400 (
      take keep c
      ++ (codes "\n[... "
          ++ (decimal (length c - keep)
              ++ codes " bytes of old tool output removed to fit the context budget]")))

-- A content, and the total after it
unfoldable pub trim_text : (ℕ → Bytes) → ℕ → ℕ → Bytes → Bytes × ℕ
unfolding shorter
trim_text decimal budget total c =
    if leb total budget || leb (length c) 400
    then (c, total)
    else (shorter decimal c, total - (length c - length (shorter decimal c)))

unfoldable pub trim_results : (ℕ → Bytes) → ℕ → ℕ → List Result → List Result × ℕ
unfolding trim_text
trim_results decimal budget total [] = ([], total)
trim_results decimal budget total (r ∷ rs) =
    let t = trim_text decimal budget total r.content in
    let rest = trim_results decimal budget t.1 rs in (record r { content = t.0 } ∷ rest.0, rest.1)

unfoldable pub trim_block : (ℕ → Bytes) → ℕ → ℕ → Block → Option Bytes → Block × ℕ
unfolding trim_text
trim_block decimal budget total b none = (b, total)
trim_block decimal budget total b (some c) =
    let t = trim_text decimal budget total c in (record b { content = some t.0 }, t.1)

unfoldable pub trim_blocks : (ℕ → Bytes) → ℕ → ℕ → List Block → List Block × ℕ
unfolding trim_block
trim_blocks decimal budget total [] = ([], total)
trim_blocks decimal budget total (b ∷ bs) =
    let t = trim_block decimal budget total b b.content in
    let rest = trim_blocks decimal budget t.1 bs in (t.0 ∷ rest.0, rest.1)

unfoldable pub trim_message : (ℕ → Bytes) → ℕ → ℕ → Message → Message × ℕ
unfolding trim_results trim_blocks
trim_message decimal budget total (user_text t) = (user_text t, total)
trim_message decimal budget total (tool_results rs) =
    let t = trim_results decimal budget total rs in (tool_results t.0, t.1)
trim_message decimal budget total (assistant bs) =
    let t = trim_blocks decimal budget total bs in (assistant t.0, t.1)

-- The loop ends at the newest message, or once the total fits.
unfoldable pub trim_messages : (ℕ → Bytes) → ℕ → ℕ → List Message → List Message
unfolding trim_message
trim_messages decimal budget total [] = []
trim_messages decimal budget total (newest ∷ []) = newest ∷ []
trim_messages decimal budget total (m ∷ n ∷ ms) =
    let t = trim_message decimal budget total m in
    let rest = trim_messages decimal budget t.1 (n ∷ ms) in
    if leb total budget then m ∷ n ∷ ms else t.0 ∷ rest

unfoldable pub trim_history : (ℕ → Bytes) → List Message → ℕ → List Message
unfolding total_of trim_messages
trim_history decimal messages budget =
    let total : ℕ = total_of messages in
    if leb total budget then messages else trim_messages decimal (budget / 2) total messages
