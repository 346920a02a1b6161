-- ===== src/Lbi/Tests.antt =====
-- A release file of internal/lbi/lbi.go, and an instance of the round trip.
use lts_agent.Base.{◌≡◌, refl, true, Bytes, [], ◌∷◌, lit, same}
use lts_agent.Go.Errors.{ok}
use lts_agent.Go.Maps.{Map, get}
use lts_agent.Go.Numbers.{show_nat}
use lts_agent.Go.Strings.{trim_space, split, cut, cut_last, has_prefix}
use lts_agent.Go.Unquote.{unquote}
use lts_agent.Go.Utf8.{rune_length}
use lts_agent.Lbi.{
  parse_value, store, parse_pair, parse_line, parse_lines, parse_release, collect_lbi,
  new_collector,
}
use lts_agent.Lbi.RoundTrip.{render, put_all, parse_release-render}

abbrev file : Bytes
file =
    lit
      "# image\n LBI_NAME = \"Base\\x20image\"\nLBI_VERSION='1.2'\n=3\nBASE_OS=debian\nLBI_BUILD='7\n"

collect_lbi-file : (collect_lbi (new_collector (λ path. ok file))).0 ≡ record {
  available = true;
  name = lit "Base image";
  short = [];
  version = lit "1.2";
  build = [];
  base_os = lit "debian";
  maintainer = [];
}
unfolding collect_lbi new_collector parse_release parse_lines parse_line parse_pair store
    parse_value trim_space split cut cut_last has_prefix unquote rune_length show_nat get same lit
collect_lbi-file = refl

abbrev entries : Map
entries = (lit "LBI_NAME", lit "it's") ∷ (lit "LBI_NAME", lit "a = b") ∷ []

parse_release-render_example : parse_release (render entries) ≡ (put_all entries [], [])
unfolding lit has_prefix
parse_release-render_example = parse_release-render entries (
  record { nonempty = refl; visible = refl; plain = refl; no_comment = refl; one_line = refl },
  (
    record { nonempty = refl; visible = refl; plain = refl; no_comment = refl; one_line = refl },
    tt,
  ),
)
