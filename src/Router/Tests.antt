-- ===== src/Router/Tests.antt =====
-- Commands and updates, read and routed.
use Prim.Native.String
use ddochi_backend.Prelude.{
  ◌≡◌, refl, ℕ, ◌≤◌, leb, ◌&&◌, String, Bool, true, false, Option, none, some, List, [], ◌∷◌, arith,
}
use ddochi_backend.Prelude.Case.{upper}
use ddochi_backend.Router.Words
use ddochi_backend.Pairing.Admin.{pair_command}
use ddochi_backend.Router.Commands.{
  is_pair_command, parse_pair_code, no_teacher, usage, by_short, by_name, is_teacher_command,
  teacher_request, explain, start_short, start_name, is_result_command, result_request, find_tag,
}
use ddochi_backend.Router.Webhook.{Update, dedup_hit, duplicate, unauthorized, date_reply, webhook}
use ddochi_backend.Router.Redelivery.{deliver, redelivered}
use ddochi_backend.Router.Reading.{parse_pair_code-command, find_tag-prompt}

abbrev small_word : ℕ → Bool
small_word c = leb b'a' c && leb c b'z'

pair_commands :
    (is_pair_command small_word "/pair A1B2C3D4" ≡ true)
    × (is_pair_command small_word "/PAIR@my_bot A1B2C3D4" ≡ true)
    × (is_pair_command small_word "/pairing" ≡ false)
    × (is_pair_command small_word "hello" ≡ false)
    × (parse_pair_code "/pair@my_bot a1b2c3d4" ≡ some "A1B2C3D4")
    × (parse_pair_code "/pair" ≡ none)
    × (parse_pair_code "/pair too many words" ≡ none)
    × (parse_pair_code "/pair@ A1" ≡ none)
unfolding is_pair_command parse_pair_code
pair_commands = (refl, refl, refl, refl, refl, refl, refl, refl)

teacher_commands :
    (teacher_request "/t 홍길동 김철수" ≡ by_name "홍길동" "김철수")
    × (teacher_request "/t_0a1b2c3d@bot 김철수(타지역) " ≡ by_short "0A1B2C3D" "김철수(타지역)")
    × (teacher_request "/t_0a1b2c3d" ≡ no_teacher "0A1B2C3D")
    × (teacher_request "/t 홍길동" ≡ usage)
    × (is_teacher_command "/t_0a1b2c3" ≡ false)
    × (is_teacher_command "/today" ≡ false)
unfolding teacher_request is_teacher_command
teacher_commands = (refl, refl, refl, refl, refl, refl)

result_commands :
    (result_request "/r_0a1b2c3d" ≡ start_short "0A1B2C3D")
    × (result_request "/r@bot 홍길동" ≡ start_name "홍길동")
    × (result_request "/r" ≡ explain)
    × (is_result_command "/r 홍길동 김철수" ≡ false)
    × (find_tag "날짜\n#r_0a1b2c3dS" ≡ some ("0A1B2C3D", "S"))
    × (find_tag "#r_0a1b2c3dX" ≡ none)
unfolding result_request is_result_command find_tag
result_commands = (refl, refl, refl, refl, refl, refl)

abbrev update : Update
update = record {
  update_id = some 7;
  said = some "10/12 19:00";
  replied_bot = some "답장으로 보내줘\n#r_0A1B2C3DD";
  has_callback = false;
}

delivered :
    ((webhook small_word "s" "s" 1000 (some update) []).0 ≡ date_reply "0A1B2C3D" "D" "10/12 19:00")
    × ((webhook small_word "s" "x" 1000 (some update) []).0 ≡ unauthorized)
    × ((webhook small_word "s" "s" 1000 (some update) ((7, 900) ∷ [])).0 ≡ duplicate)
    × ((webhook small_word "s" "s" 301000 (some update) ((7, 900) ∷ [])).0
        ≡ date_reply "0A1B2C3D" "D" "10/12 19:00")
unfolding webhook dedup_hit find_tag is_pair_command is_teacher_command is_result_command
delivered = (refl, refl, refl, refl)

new_update : (dedup_hit 1000 (some 7) []).0 ≡ false
unfolding dedup_hit
new_update = refl

redelivered_example :
    (webhook small_word "s" "s" 300000
      (some update)
      (deliver ((2000, some 8) ∷ (250000, none) ∷ []) (dedup_hit 1000 (some 7) []).1)).0
    ≡ duplicate
redelivered_example =
    redelivered small_word "s" update 7 1000 300000 [] ((2000, some 8) ∷ (250000, none) ∷ []) refl
      refl new_update (omega arith, (omega arith, tt)) (omega arith)

parse_pair_code-command_example :
    parse_pair_code (pair_command "ddochi_bot" "a1B2c3D4") ≡ some (upper "a1B2c3D4")
unfolding ddochi_backend.Router.Words.all_alnum ddochi_backend.Router.Reading.no_space
parse_pair_code-command_example = parse_pair_code-command "ddochi_bot" "a1B2c3D4" refl refl refl

find_tag-prompt_example :
    find_tag (String.◌++◌ "답장으로 보내줘 " (String.◌++◌ "#r_" (String.◌++◌ "0a1b2c3d" "S")))
    ≡ some (upper "0a1b2c3d", "S")
unfolding ddochi_backend.Router.Reading.no_hash ddochi_backend.Router.Reading.all_hex
    ddochi_backend.Prelude.Text.string_length
find_tag-prompt_example = find_tag-prompt "답장으로 보내줘 " "0a1b2c3d" "S" "S" refl refl refl refl
