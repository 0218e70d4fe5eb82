-- ===== src/Tests/Texts.antt =====
-- Identifiers, blocks and tags at fixed inputs.
use seabird_core.Prelude.{
  ◌≡◌, refl, Text, text, some, [], ok, err, status, invalid_argument, hash_insert, text_ord,
}
use seabird_core.Id.{BackendId, show_full_id, parse_backend_id, parse_full_id}
use seabird_core.Id.Outcome.{Parsed, parse_id-Parsed}
use seabird_core.Id.Named.{Named}
use seabird_core.Id.RoundTrip.{parse_full_id-show}
use seabird_core.Block.{
  Block, block, inner, text_block, bold, list, link, just, no_block, cons, nil,
  normalize_block_inner, render_inner_block,
}
use seabird_core.Block.Described.{strip, fill, complaint, rendering}
use seabird_core.Block.Normal.{outcome, normalize_block_inner-eq}
use seabird_core.Block.Stable.{normalize-strip}
use seabird_core.Block.Message.{normalize_block, normalize_block-some, original_format_tag}
use seabird_core.Tests.Samples.{codec, codec-Laws}

abbrev backend : BackendId
backend = record { scheme = text "irc"; id = text "a/b" }

parse_full_id-show_example :
    parse_full_id codec (show_full_id codec (record { backend = backend; path = text "#x://y" }))
    ≡ ok (record { backend = backend; path = text "#x://y" })
parse_full_id-show_example =
    parse_full_id-show codec codec-Laws (record { backend = backend; path = text "#x://y" })

-- A list of a link and a bold text, with plain texts that are wrong.
abbrev leaf : Text → Block
leaf t = block (text "?") (inner (text_block t))

abbrev sample : Block
sample = block [] (
    inner (
      list (
        cons (block [] (inner (link (text "u") (just (leaf (text "a"))))))
          (cons (block (text "x") (inner (bold (just (leaf (text "b")))))) nil))))

abbrev broken : Block
broken =
    block [] (inner (list (cons (leaf (text "a")) (cons (block [] (inner (bold no_block))) nil))))

sample-rendering : rendering sample ≡ text "a (u), b"
unfolding rendering text
sample-rendering = refl

broken_refused :
    normalize_block_inner broken
    ≡ err (status invalid_argument (text "bold block missing inner block"))
unfolding normalize_block_inner render_inner_block
broken_refused = refl

normalize_block_inner-eq_example :
    normalize_block_inner broken ≡ outcome (complaint broken) (fill broken)
normalize_block_inner-eq_example = normalize_block_inner-eq broken

normalize-strip_example : normalize_block_inner (strip sample) ≡ normalize_block_inner sample
normalize-strip_example = normalize-strip sample

sample_normal : normalize_block_inner sample ≡ ok (fill sample)
unfolding complaint
sample_normal = normalize_block_inner-eq sample

sample_block :
    normalize_block (text "t") (some sample)
    ≡ ok (rendering sample, fill sample, hash_insert original_format_tag (text "blocks") [])
unfolding complaint
sample_block = normalize_block-some (text "t") sample

parse_id-Parsed_example :
    Named codec (text "irc://net") (parse_backend_id codec (text "irc://net"))
    × Parsed codec (text "irc://net") (parse_full_id codec (text "irc://net"))
parse_id-Parsed_example = parse_id-Parsed codec (text "irc://net")
