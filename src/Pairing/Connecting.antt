-- ===== src/Pairing/Connecting.antt =====
-- From the code that an administrator gets to the chat in the team's CONFIG.
use mathlib.Core.Path.{subst}
use ddochi_backend.Prelude.{
  ◌≡◌, refl, sym, ap, ◌∙◌, ℕ, ◌+◌, ◌≤◌, String, true, false, Option, none, some, List, ◌∷◌, arith,
}
use ddochi_backend.Prelude.Text.{str_eq, is_empty}
use ddochi_backend.Prelude.Outcome.{ok}
use ddochi_backend.Pairing.Channels.{ChannelDef, channel_def, title_key}
use ddochi_backend.Pairing.Config.{
  Value, value_of, ConfigRow, str, patch_team_config, load_team_config, get_value, null,
}
use ddochi_backend.Pairing.Bearer.{check_internal_auth}
use ddochi_backend.Pairing.Rows.{Pairing, Store, update_pairing, is_expired, ten_minutes}
use ddochi_backend.Pairing.Admin.{
  Request, started, request_team, request_channel, telegram_pair_start, telegram_pair_disconnect,
  disconnect_found, last_message,
}
use ddochi_backend.Pairing.Complete.{
  Service, CompleteRequest, request_code, request_chat, request_title, first_group, send_to,
  message_patch, message_team, write_message, first_message, connect, connect_patch, complete_row,
  write_completion, verdict_of_row, read_row, go_on, after_verdict, complete_authorized,
  telegram_pair_complete,
}
use ddochi_backend.Pairing.Fields.{
  has_key, is_live, load-patch, load-patch_ne, load-patch_keeps, is_distinct, channel_def-distinct,
  message-clear,
}
use ddochi_backend.Pairing.Completing.{is_completed, complete_by_post}
use ddochi_backend.Pairing.Fresh.{unique_codes, IsFresh, start-IsFresh, start-configs}

-- The first message of a dashboard leaves the chats that are connected.
write_message-chat :
    (channel group team k : String) (d : ChannelDef) (o : Option (String × String))
    (rows : List ConfigRow)
    → channel_def k ≡ some d
    → get_value d.field (load_team_config team (write_message channel group o rows))
      ≡ get_value d.field (load_team_config team rows)
unfolding write_message
write_message-chat channel group team k d none rows def = refl
write_message-chat channel group team k d (some (i, day)) rows def =
    load-patch_keeps (message_team channel group) team d.field (message_patch channel i day) rows
      (message-clear k channel i day def)

send_to-chat :
    (v : Service) (channel team k : String) (d : ChannelDef) (o : Option String)
    (rows : List ConfigRow)
    → channel_def k ≡ some d
    → get_value d.field (load_team_config team (send_to v channel o rows))
      ≡ get_value d.field (load_team_config team rows)
send_to-chat v channel team k d none rows def = refl
send_to-chat v channel team k d (some group) rows def =
    write_message-chat channel group team k d (v.sent channel group rows) rows def

first_message-chat :
    (v : Service) (channel team k : String) (d : ChannelDef) (rows : List ConfigRow)
    → channel_def k ≡ some d
    → get_value d.field (load_team_config team (first_message v channel team rows))
      ≡ get_value d.field (load_team_config team rows)
unfolding first_message
first_message-chat v channel team k d rows def =
    send_to-chat v channel team k d (first_group channel team) rows def

field-distinct :
    (k : String) (d : ChannelDef) (title : Value)
    → channel_def k ≡ some d
    → has_key d.field ((title_key d.field, title) ∷ last_message d) ≡ false
unfolding is_distinct
field-distinct k d title def = let h = channel_def-distinct k def in ground arith

connect-chat :
    (v : Service) (p : Pairing) (chat : String) (title : Option String) (s : Store) (d : ChannelDef)
    → channel_def p.channel_type ≡ some d
    → is_live p.team_id s.configs ≡ true
    → (is_completed (connect v p chat title s (some d)).0 ≡ true)
      × (get_value d.field
            (load_team_config p.team_id (connect v p chat title s (some d)).1.configs)
          ≡ str chat)
unfolding connect
connect-chat v p chat title s d def live =
    let rows = patch_team_config p.team_id (connect_patch d chat title) s.configs in
    (
      refl,
      first_message-chat v p.channel_type p.team_id p.channel_type d rows def
          ∙ load-patch p.team_id d.field (str chat)
              ((title_key d.field, value_of title) ∷ last_message d) s.configs live
              (field-distinct p.channel_type d (value_of title) def),
    )

write_completion-chat :
    (v : Service) (now : ℕ) (k chat team : String) (title : Option String) (p : Pairing) (s : Store)
    (d : ChannelDef)
    → channel_def p.channel_type ≡ some d
    → p.team_id ≡ team
    → is_live team s.configs ≡ true
    → (is_completed (write_completion v now k chat title p s).0 ≡ true)
      × (get_value d.field
            (load_team_config team (write_completion v now k chat title p s).1.configs)
          ≡ str chat)
unfolding write_completion
write_completion-chat v now k chat team title p s d def of live =
    let after = record s { pairings = update_pairing k (complete_row now chat title) s.pairings } in
    let there = subst (λ t. is_live t s.configs ≡ true) (sym of) live in
    let (reply, value) = connect-chat v p chat title after d def there in
    subst
      (λ t.
        (is_completed (connect v p chat title after (channel_def p.channel_type)).0 ≡ true)
        × (get_value d.field (
              load_team_config t
                (connect v p chat title after (channel_def p.channel_type)).1.configs)
            ≡ str chat))
      of (rw def (reply, value))

read-IsFresh :
    (k team channel : String) (now later : ℕ) (s : Store) (f : IsFresh k team channel now s)
    → later ≤ now + ten_minutes
    → read_row later k s s ≡ go_on f.row
unfolding read_row verdict_of_row is_expired
read-IsFresh k team channel now later s f h = ground (arith, f.found, f.unused, f.until_)

complete_is_written :
    (v : Service) (now : ℕ) (r : CompleteRequest) (s : Store) (p : Pairing)
    → r.is_post ≡ true
    → check_internal_auth v.token r.authorization ≡ ok true
    → is_empty (request_code r) ≡ false
    → is_empty (request_chat r) ≡ false
    → read_row now (request_code r) s s ≡ go_on p
    → telegram_pair_complete v now r s
      ≡ write_completion v now (request_code r) (request_chat r) (request_title r) p s
unfolding complete_authorized after_verdict
complete_is_written v now r s p post allowed code_ chat_ read =
    complete_by_post v now r s post ∙ rw (allowed, code_, chat_, read)

-- A code that an administrator has got connects the chat from which the bot router reports it
-- within ten minutes, where nothing else happens in between: the chat's id is then what the team's
-- CONFIG has for the channel. The report is posted with the router's token and names a chat; codes
-- are unique, the channel is one of CHANNEL_DEFS, and the team's row of settings is not marked as
-- deleted.
pub start_connects :
    (bot k cmd : String) (now later : ℕ) (codes : List String) (r : Request) (s : Store)
    (v : Service) (c : CompleteRequest) (d : ChannelDef)
    → unique_codes s.pairings ≡ true
    → is_live (request_team r) s.configs ≡ true
    → (telegram_pair_start bot now codes r s).0 ≡ started k cmd
    → channel_def (request_channel r) ≡ some d
    → c.is_post ≡ true
    → check_internal_auth v.token c.authorization ≡ ok true
    → request_code c ≡ k
    → is_empty (request_code c) ≡ false
    → is_empty (request_chat c) ≡ false
    → later ≤ now + ten_minutes
    → let after = telegram_pair_complete v later c (telegram_pair_start bot now codes r s).1 in
      (is_completed after.0 ≡ true)
      × (get_value d.field (load_team_config (request_team r) after.1.configs)
          ≡ str (request_chat c))
start_connects bot k cmd now later codes r s v c d unique live got def post allowed same code_ chat_
      in_time =
    let t = (telegram_pair_start bot now codes r s).1 in
    let f =
      subst (λ j. IsFresh j (request_team r) (request_channel r) now t) (sym same)
        (start-IsFresh bot k cmd now codes r s unique got) in
    let read =
      read-IsFresh (request_code c) (request_team r) (request_channel r) now later t f in_time in
    let same_after = complete_is_written v later c t f.row post allowed code_ chat_ read in
    let live_ : is_live (request_team r) t.configs ≡ true =
      ap (is_live (request_team r)) (start-configs bot now codes r s) ∙ live in
    subst
      (λ o.
        (is_completed o.0 ≡ true)
        × (get_value d.field (load_team_config (request_team r) o.1.configs)
            ≡ str (request_chat c)))
      (sym same_after)
      (write_completion-chat v later (request_code c) (request_chat c) (request_team r)
        (request_title c) f.row t d (ap channel_def f.of_channel ∙ def) f.of_team live_)

-- A disconnection takes the chat of the channel out of the team's CONFIG, where the team's row of
-- settings is not marked as deleted, and leaves the other teams' settings.
pub disconnect_clears :
    (r : Request) (s : Store) (d : ChannelDef) (other : String)
    → r.is_post ≡ true
    → is_empty (request_team r) ≡ false
    → channel_def (request_channel r) ≡ some d
    → is_live (request_team r) s.configs ≡ true
    → str_eq (request_team r) other ≡ false
    → let after = (telegram_pair_disconnect r s).1.configs in
      (get_value d.field (load_team_config (request_team r) after) ≡ null)
      × (load_team_config other after ≡ load_team_config other s.configs)
unfolding telegram_pair_disconnect disconnect_found
disconnect_clears r s d other post named def live ne =
    let more = (title_key d.field, null) ∷ last_message d in
    simp (post, named, def)
      (
        load-patch (request_team r) d.field null more s.configs live
            (field-distinct (request_channel r) d null def),
        load-patch_ne (request_team r) other ((d.field, null) ∷ more) s.configs ne,
      )
