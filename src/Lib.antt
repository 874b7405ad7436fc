-- ===== src/Lib.antt =====
-- Verification of the Ddochi backend: the Django API under `api/`, the cron router under
-- `cron_router_py/` and the bot router under `tel_router_py/`, which share an Oracle database
-- behind a query service (`data_router/`, in Go, not modelled).
--
-- Field management (ShortCard), `api/views/short_card.py`. A member submits short cards (짧카) of
-- acquaintances, fills their journal stage by stage, asks for a decision on a card as a sprout
-- (떡잎), and a group lead or a broader position decides. Tables are the record `Store` of rows:
-- ShortCard.Tables. Positions, their tiers and `_caller_ctx`: Tiers. `_stage3_complete`,
-- `_journal_stage`, `_can_decide_sprout`: Stage. `_scope_sql` and the scope of
-- `get_short_card_journal`: Scope. The handlers, from a request and a store to a reply and a
-- store: Submit, Listing, Decide, Journal; `group_sprout_status`: Goals. What is proved of them:
-- Authority, Lifecycle (with Saving and Reach), Visibility, Ranks, Phones, Counting.
--
-- The cron router (Cron). `cron_match.py`: Field (one field of an expression, with the errors that
-- Python raises), Clock (a time in Korea from milliseconds), Match (`match_cron` and
-- `find_recent_match`). `runner.py`: Jobs (the table SCHEDULED_JOBS, the claim by UPDATE), Runner
-- (`_failure_reason`, `run_tick`); the names of `handlers.py` are a list, what a handler does is
-- the parameter `call`. What is proved of them: Recent, Unread, Claims, Ticks.
--
-- Telegram pairing (Pairing). An administrator gets a code (`api/views/telegram_pair.py`: Admin), a
-- member sends it to a chat, and the bot router reports it with its token
-- (`api/views/telegram_pair_internal.py`: Complete, with the greetings in Welcome; the token's
-- check of `api/telegram/internal_auth.py`: Bearer). The rows of TELEGRAM_PAIRINGS are in Rows, the
-- channels in Channels, and the team's CONFIG of `api/telegram/team_config.py` in Config. Whether
-- a dashboard's first message is sent, by the time of day, the chat and Telegram's answer, is the
-- parameter `sent`; its id is written to CONFIG. The drawn codes are an argument. What is proved of them: Fields, Completing, Steps, Fresh, Connecting.
--
-- Signing in (Auth). A member signs in with a number and the passkey that all share, gets an access
-- token and a refresh token, and every view behind `require_jwt` checks the first: `api/auth/jwt.py`
-- and `api/auth/gate.py` are in Tokens, `api/views/auth.py` and `api/auth/passkey.py` in Login. PyJWT
-- is a parameter with `encode` and a `decode` that reads the clock; SHA-256 is a parameter. What is
-- proved of them: SigningIn, Checks, Sessions, Permissions.
--
-- The business day (Business) of reports, `api/util/business_date.py`: Day, on the calendar of
-- Cron.Clock; what is proved of it: Shift.
--
-- Prospects (Sarang, 사랑이), `api/views/assets.py` from the first call on, and the bot's buttons for
-- them. The rows are in Tables, the choice of an attempt in Attempts; Submit has the logs and the card
-- (합재양) that is written, with the form's texts in Labels; Approval the flags and the decision, Results
-- the results and postponed meetings, Logs the deletions, Editing the edits, with the teacher's name in
-- Teacher, which the bot's command shares. Taps has the buttons of a card
-- (`api/views/internal_telegram.py`, the keyboard of `api/telegram/habjaeyang.py`), ResultTaps
-- those of a result (`api/telegram/match_result_input.py`), Bot what the router calls. Drawn ids are
-- the argument `new_id`, a number for each row; times are the texts that the database reads;
-- messages and dashboards are left out. Calls has the calls and the people
-- present, a state of the process. Steps has the operations as a step relation, without the
-- deletion of logs, which Cards adds; a card for a new prospect (`submit_habjaeyang_new`) is not
-- modelled. What is proved of them: Ordering, Active, Mild, Lifecycle, Cards, Funnel, Undo,
-- Cutting, Tapping.
--
-- Signed buttons (Buttons). The main service signs a button (`api/telegram/callback_hmac.py`,
-- `api/telegram/habjaeyang.py`) and the bot router verifies it (`tel_router_py/hmac_verify.py`):
-- Signing. What a tap then leads to (`tel_router_py/callback.py`): Callback. Each service
-- has its own definition of the code of a button; the text of HMAC-SHA256 in base64 is a parameter of
-- both. What is proved of them: RoundTrip, Accepting.
--
-- The bot router (Router), `tel_router_py/`. Words and Commands read the commands as the regular
-- expressions do, Webhook drops updates that come twice and asks the handlers in order. Which
-- characters are letters is an argument. What is proved of it: Redelivery, Reading.
--
-- Choices. A text column is a text or null; comparison with null is SQL's in a WHERE clause and
-- Python's (None equals None) in code. A query or update of the database succeeds, except the
-- insertion of a pairing code, a log without an actor and a phone number without digits; its
-- caches are left out. Request fields are texts or null,
-- digits are ASCII and letters with a case are ASCII or become so, JSON numbers are integers.
-- Primary keys are unique, and the list of cards stands in the order that the list's query sorts by. Times are whole
-- milliseconds since 1970 (microseconds for pairing codes), not before it. Log lines are left out.
--
-- Fuel. `find_recent_match` walks back minute by minute; its model gets now / 60000 + 1 rounds,
-- enough to reach time 0, and the theorem on the latest match shows that the fuel does not run out.
-- The walk over the values of a range in a cron field gets as many rounds as the range is long.
--
-- Not modelled: the other views and dashboards of `api/`, which build texts from queries; the
-- process loops, HTTP clients and settings; the Go service; SQL scripts and imports.
pub mod Auth
pub mod Business
pub mod Buttons
pub mod Cron
pub mod Pairing
pub mod Prelude
pub mod Router
pub mod Sarang
pub mod ShortCard
