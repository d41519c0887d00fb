-- ===== src/Bot/Texts.antt =====
-- The answers of internal/bot/application/command_service.go.
use linktracker_eng.Prelude.{
  ℕ, suc, List, [], ◌∷◌, ◌++◌, Text, codes, is_nil, if◌then◌else◌, decimal,
}
use linktracker_eng.Scrapper.Tables.{LinkSubscription}

abbrev pub start_msg : Text
start_msg = codes "Добро пожаловать! \nИспользуйте /help, чтобы посмотреть доступные команды."

abbrev pub default_msg : Text
default_msg =
    codes "Неизвестная команда. \nВоспользуйтесь /help, чтобы посмотреть список доступных команд"

abbrev pub track_start_msg : Text
track_start_msg = codes "Пришлите ссылку для отслеживания: "

abbrev pub track_await_tags_msg : Text
track_await_tags_msg = codes "Пришлите теги командой: /tags <tag1> <tag2> ..."

abbrev pub track_cancel_msg : Text
track_cancel_msg = codes "Отслеживание отменено"

abbrev pub track_done_msg : Text
track_done_msg = codes "Ссылка отслеживается"

abbrev pub track_exists_msg : Text
track_exists_msg = codes "Ссылка уже отслеживается"

abbrev pub untrack_usage_msg : Text
untrack_usage_msg = codes "Формат: /untrack <url>"

abbrev pub untrack_done_msg : Text
untrack_done_msg = codes "Ссылка больше не отслеживается ):"

abbrev pub untrack_not_found : Text
untrack_not_found = codes "Ссылка не отслеживается"

abbrev pub add_tags_usage_msg : Text
add_tags_usage_msg = codes "Формат: /addtags <url> <tag1> <tag2> ..."

abbrev pub add_tags_done_msg : Text
add_tags_done_msg = codes "Теги добавлены"

abbrev pub clear_tags_usage_msg : Text
clear_tags_usage_msg = codes "Формат: /cleartags <url>"

abbrev pub clear_tags_done_msg : Text
clear_tags_done_msg = codes "Теги очищены"

abbrev pub list_empty_msg : Text
list_empty_msg = codes "Нет отслеживаемых ссылок ):"

abbrev pub start_exists_msg : Text
start_exists_msg = codes "Чат уже зарегистрирован"

abbrev pub chat_not_found_msg : Text
chat_not_found_msg = codes "Чат не зарегистрирован. Используйте /start"

abbrev pub bad_request_msg : Text
bad_request_msg = codes "Некорректный запрос"

abbrev pub unavailable_msg : Text
unavailable_msg = codes "Сервис временно недоступен, попробуйте позже"

abbrev pub server_error_msg : Text
server_error_msg = codes "ошибка на стороне сервера );"

pub record CommandInfo : Type 0 where
  pub name : Text
  pub description : Text

abbrev info : Text → Text → CommandInfo
info n d = record { name = n; description = d }

-- SupportedCommands
unfoldable pub supported_commands : List CommandInfo
supported_commands =
    info (codes "start") (codes "регистрация пользователя и старт бота")
    ∷ info (codes "help") (codes "список доступных команд")
    ∷ info (codes "track") (codes "начать отслеживание ссылки")
    ∷ info (codes "untrack") (codes "перестать отслеживать ссылку")
    ∷ info (codes "addtags") (codes "добавить теги к отслеживаемой ссылке")
    ∷ info (codes "cleartags") (codes "очистить теги отслеживаемой ссылки")
    ∷ info (codes "list") (codes "список ссылок")
    ∷ info (codes "url") (codes "формирование отслеживаемой ссылки")
    ∷ info (codes "tags") (codes "формирование тегов для ссылки")
    ∷ []

-- strings.Join
unfoldable pub join_texts : Text → List Text → Text
join_texts sep [] = []
join_texts sep (x ∷ []) = x
join_texts sep (x ∷ y ∷ rest) = x ++ sep ++ join_texts sep (y ∷ rest)

abbrev tag_part : List Text → Text
tag_part tags = if is_nil tags then codes "без тегов" else join_texts (codes ", ") tags

unfoldable pub link_lines : ℕ → List LinkSubscription → List Text
unfolding decimal join_texts
link_lines i [] = []
link_lines i (l ∷ ls) =
    (decimal i ++ codes ". " ++ l.link ++ codes " [tags: " ++ tag_part l.tags ++ codes "]")
    ∷ link_lines (suc i) ls

-- renderLinks
unfoldable pub render_links : List LinkSubscription → Text
unfolding link_lines join_texts
render_links links = join_texts (codes "\n") (codes "Отслеживаемые ссылки:" ∷ link_lines 1 links)

unfoldable pub help_lines : List CommandInfo → Text
help_lines [] = []
help_lines (c ∷ cs) =
    codes "/" ++ c.name ++ codes " -> " ++ c.description ++ codes "\n" ++ help_lines cs

-- renderHelp
unfoldable pub render_help : List CommandInfo → Text
unfolding help_lines
render_help cs = codes "Доступные команды: \n" ++ help_lines cs
