-- ===== src/Tests/Irc.antt =====
-- Runs of src/irc_parse.c and src/irc.c.
use shclaw.Base.{◌≤◌, ◌≡◌, ◌≢◌, refl, List, [], ◌∷◌, Bytes, codes, length, All}
use shclaw.Irc.Mentions.{Mention, mentions, parse_mentions}
use shclaw.Irc.Mentions.Sound.{IsDelivery, parse_mentions_sound}

abbrev team : List Bytes
team = codes "jarvis" ∷ codes "oracle" ∷ codes "builder" ∷ []

abbrev part : Bytes → Bytes → Mention
part a t = record { agent = a; text = t }

-- both agents share the text, the address is no mention, and the end without a text is dropped
parsed :
    parse_mentions (codes "hey @Oracle @builder mail me@oracle.com @jarvis") team (codes "jarvis") 8
    ≡ part (codes "jarvis") (codes "hey")
      ∷ part (codes "oracle") (codes "mail me@oracle.com")
      ∷ part (codes "builder") (codes "mail me@oracle.com")
      ∷ []
unfolding parse_mentions
parsed = refl

parsed_all :
    parse_mentions (codes "all: status?") team (codes "jarvis") 8
    ≡ part (codes "all") (codes "status?") ∷ []
unfolding parse_mentions
parsed_all = refl

abbrev sample : Bytes
sample = codes "@oracle hi"

sample-ne-nil : mentions team sample ≢ []
unfolding parse_mentions
sample-ne-nil h = cc

parse_mentions_sound_example :
    All (IsDelivery team (codes "jarvis")) (parse_mentions sample team (codes "jarvis") 8)
    × (length (parse_mentions sample team (codes "jarvis") 8) ≤ 8)
parse_mentions_sound_example = parse_mentions_sound sample team (codes "jarvis") 8
