-- ===== src/Tests/Config.antt =====
-- A configuration of one channel, as YAML loads it.
use openevent_modules_im.Prelude.{ℕ, String}
use openevent_modules_im.Json.{Json, int, pos, str, arr, obj, nil, cons, end, field}
use openevent_modules_im.Config.Parsing.{parse_config}
use openevent_modules_im.Config.Checks.{Ensures}
use openevent_modules_im.Config.Valid.{Valid}
use openevent_modules_im.Config.Accepted.{parse_config-Valid}

abbrev natural : ℕ → Json
natural n = int (pos n)

abbrev token : ℕ → String → Json
token principal text = obj (field "principal" (natural principal) (field "token" (str text) end))

abbrev mapping : String → String → ℕ → Json
mapping identity_type external_user_id principal = obj (
    field "provider" (str "lark") (
      field "identity_type" (str identity_type) (
        field "external_user_id" (str external_user_id) (
          field "principal" (natural principal)
            (field "session_id" (str "oc_1") (field "channel_id" (natural 7) end))))))

abbrev provider : Json
provider = obj (
    field "name" (str "lark") (
      field "sync" (obj (field "page_size" (natural 20) end)) (
        field "credentials" (obj (field "app_id" (str "cli_1") (field "app_secret" (str "s") end)))
          end)))

abbrev raw : Json
raw = obj (
    field "version" (str "v1") (
      field "worker" (token 1 "w") (
        field "openevent" (obj (field "target" (str "localhost") end)) (
          field "principal_tokens" (arr (cons (token 20 "t20") (cons (token 30 "t30") nil))) (
            field "providers" (arr (cons provider nil)) (
              field "mappings"
                (arr (cons (mapping "user" "ou_1" 20) (cons (mapping "bot" "cli_1" 30) nil)))
                end))))))

parse_config-Valid_example : Ensures Valid (parse_config raw)
parse_config-Valid_example = parse_config-Valid raw
