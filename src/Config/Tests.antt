-- ===== src/Config/Tests.antt =====
-- Runs of the configuration checks at concrete inputs.
use wterm.Prelude.{
  ◌≡◌, refl, none, some, List, [], ◌∷◌, Text, codes, ◌==◌, false, true, all_chars, filter_by,
  read_onto, nat_key, list_key,
}
use wterm.Prelude.Int.{pos}
use wterm.Json
use wterm.Json.{Json, Members, find}
use wterm.OrderedDict.{OrderedDict}
use wterm.Config.{
  project_env, env_entries, env_value, is_env_name, all_name_chars, has_nul, project_args,
  arg_entries, arg_values, arg_items, integer, checked_integer, optional_string, optional_value,
  strip, lstrip, rstrip, is_space,
}
use wterm.Url
use wterm.Config.{Config}
use wterm.Config.Load.{Outside, mismatch, load_config}
use wterm.Config.Accepted.{IsAccepted, load_config-IsAccepted}
use wterm.Config.Entries.{env_object}
use wterm.Config.Arguments.{args_object}

abbrev env : OrderedDict Text Text
env = (codes "WTERM_PROJECT", codes "web") ∷ []

accepted : project_env (some (Json.object (env_object env))) ≡ some env
unfolding project_env env_entries env_value is_env_name all_name_chars has_nul
accepted = refl

refused : project_env (some (Json.object (env_object ((codes "TERM", codes "dumb") ∷ [])))) ≡ none
unfolding project_env env_entries env_value is_env_name all_name_chars has_nul
refused = refl

abbrev args : OrderedDict Text (List Text)
args = (codes "claude", codes "--model" ∷ codes "opus" ∷ []) ∷ []

ended_options :
    project_args (some (Json.object (args_object ((codes "codex", codes "--" ∷ []) ∷ [])))) ≡ none
unfolding project_args arg_entries arg_values arg_items has_nul
ended_options = refl

abbrev raw : Members
raw =
    Json.member (codes "port") (Json.int (pos 8443))
      (Json.member (codes "uds") (Json.str (codes " /run/w.sock\n")) Json.end)

port : integer raw (codes "port") 8877 1 65535 ≡ some 8443
unfolding integer checked_integer find
port = refl

uds : optional_string raw (codes "uds") ≡ some (some (codes "/run/w.sock"))
unfolding optional_string optional_value find strip lstrip rstrip is_space
uds = refl

abbrev world : Outside
world = record {
  hash_check = λ t. mismatch;
  directory = λ path. some (some path);
  is_loopback_v6 = λ t. t == codes "::1";
  checks = record { bracketed_fine = λ t. true; compatible = λ t. true };
}

abbrev members : Json → Members
members projects = Json.member (codes "host") (Json.str (codes "100.64.0.1")) (
    Json.member (codes "password_hash") (Json.str (codes "$argon2id$v=19")) (
      Json.member (codes "allowed_origins")
        (Json.array (Json.item (Json.str (codes "https://Wterm.Example.com:8443")) Json.nil))
        (Json.member (codes "tls_certfile") (Json.str (codes "cert.pem")) (
          Json.member (codes "tls_keyfile") (Json.str (codes "key.pem"))
            (Json.member (codes "projects") projects Json.end)))))

abbrev one_project : Json
one_project = Json.object (
    Json.member (codes "name") (Json.str (codes "web"))
      (Json.member (codes "path") (Json.str (codes "/srv/web")) Json.end))

abbrev loaded : Config
loaded = record {
  host = codes "100.64.0.1";
  port = 8877;
  uds = none;
  grace_seconds = 60;
  idle_seconds = 0;
  password_hash = some (codes "$argon2id$v=19");
  allowed_origins = codes "https://wterm.example.com:8443" ∷ [];
  tls_certfile = some (codes "cert.pem");
  tls_keyfile = some (codes "key.pem");
  allow_insecure_tcp = false;
  projects =
      record { name = codes "web"; path = codes "/srv/web"; ssh = none; args = []; env = [] } ∷ [];
}

loads :
    load_config world (Json.object (members (Json.array (Json.item one_project Json.nil))))
    ≡ some loaded
unfolding load_config Url.startswith Url.urlsplit all_chars Url.authority Url.split_scheme filter_by
    Url.drop_controls Url.split_netloc Url.is_ascii Url.port_fine read_onto Url.lower_char
    project_args project_env
loads = refl

load_config-IsAccepted_example : IsAccepted world loaded
load_config-IsAccepted_example =
    load_config-IsAccepted world
      (Json.object (members (Json.array (Json.item one_project Json.nil)))) loaded loads

-- A name cannot be given twice.
twice :
    load_config world
      (Json.object (members (Json.array (Json.item one_project (Json.item one_project Json.nil)))))
    ≡ none
unfolding load_config Url.startswith Url.urlsplit all_chars Url.authority Url.split_scheme filter_by
    Url.drop_controls Url.split_netloc Url.is_ascii Url.port_fine read_onto Url.lower_char
    project_args project_env
twice = refl
