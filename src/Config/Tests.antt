-- ===== src/Config/Tests.antt =====
-- The theorem on accepted configurations at the one that is the default.
use aistudio2api.Prelude.{◌≡◌, refl, true, false, none, some, ◌∷◌, [], Text, codes}
use aistudio2api.Config.{Parsers, default_config, validate}
use aistudio2api.Config.Validity.{IsValid, validate-IsValid}

-- Every address has the port 8080, and no text is a URL.
abbrev parsers : Parsers
parsers = record {
  split_host_port = λ t. some ([], codes "8080");
  parse_uint16 = λ t. some 8080;
  parse_url = λ t. none;
}

accepts_default : validate parsers default_config ≡ none
unfolding validate aistudio2api.Prelude.trim_space aistudio2api.Prelude.str_eq
accepts_default = refl

validate-IsValid_example : IsValid parsers default_config
validate-IsValid_example = validate-IsValid parsers default_config accepts_default
