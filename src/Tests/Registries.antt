-- ===== src/Tests/Registries.antt =====
-- The theorems on the info registry, at small inputs.
use redeo.Base.{◌≡◌, refl, some, [], ◌∷◌, codes, if◌then◌else◌}
use redeo.Base.Int.{pos}
use redeo.Decimal.{format_int, format_nat, digits}
use redeo.Info.{new_server_info}
use redeo.Registry.Defaults.{World, init_defaults}
use redeo.Registry.Fetch.{find_section-fetch_section}
use redeo.Registry.Names as Names
use redeo.Registry.Names.{IsNamed, Reach, Reach-IsNamed}
use redeo.Registry.Text.{registry_string-texts, texts, behind_blanks}
use redeo.Registry.{
  Registry, static_string, new_registry, fetch_section, fetch_locked, find_section, register_value,
  registry_string, sections_at, update,
}
use redeo.Replies.{equal}
use redeo.Tests.{lower}

-- two goroutines that fetch the same new section, each behind its first look
abbrev one_section : Registry World
one_section = (fetch_locked lower (codes "Stats") new_registry).1

abbrev two_fetches : Registry World
two_fetches = (fetch_locked lower (codes "STATS") one_section).1

two_fetches-Reach : Reach lower new_registry two_fetches
two_fetches-Reach =
    Names.next (Names.next Names.here (Names.fetch (codes "Stats") new_registry))
      (Names.fetch (codes "STATS") one_section)

Reach-IsNamed_example : IsNamed lower two_fetches
Reach-IsNamed_example = Reach-IsNamed lower two_fetches-Reach

find_section-fetch_section_example :
    find_section lower (codes "stats") (fetch_section lower (codes "Stats") two_fetches).1 ≡ (
      if equal (lower (codes "Stats")) (lower (codes "stats"))
      then some (fetch_section lower (codes "Stats") two_fetches).0
      else find_section lower (codes "stats") two_fetches)
find_section-fetch_section_example =
    find_section-fetch_section lower (codes "Stats") (codes "stats") two_fetches
      Reach-IsNamed_example

abbrev empty_first : Registry World
empty_first = record {
  sections = 0 ∷ 1 ∷ [];
  store =
      record { name = codes "A"; kvs = [] }
      ∷ record { name = codes "B"; kvs = (codes "k", static_string (codes "v")) ∷ [] }
      ∷ [];
}

abbrev world : World
world = record { server = new_server_info; elapsed = 90000000000 }

both_sections : sections_at empty_first.store empty_first.sections ≡ empty_first.store
unfolding sections_at
both_sections = refl

registry_string-texts_example :
    registry_string world empty_first
    ≡ behind_blanks (
        texts world
          (record { name = codes "B"; kvs = (codes "k", static_string (codes "v")) ∷ [] } ∷ []))
registry_string-texts_example = registry_string-texts world empty_first both_sections

-- the blank line in front
empty_first_text : registry_string world empty_first ≡ codes "\n# B\nk:v\n"
unfolding registry_string
empty_first_text = refl

-- what a new server prints after a minute and a half
defaults_text :
    registry_string world (init_defaults lower (pos 7) (255 ∷ []) new_registry)
    ≡ codes
        "# Server\nprocess_id:7\nrun_id:ff\nuptime_in_seconds:90\nuptime_in_days:0\n\n# Clients\nconnected_clients:0\n\n# Stats\ntotal_connections_received:0\ntotal_commands_processed:0\n"
unfolding registry_string init_defaults fetch_section find_section register_value update equal
    format_int format_nat digits fetch_locked
defaults_text = refl
