-- ===== src/Block/Described.antt =====
-- What `normalize_block_inner` of src/utils.rs is to do, described on its own: the rendering of a
-- tree of blocks, the tree with each plain text filled in, and the first missing part for
-- which a tree is refused.
use seabird_core.Prelude.{Text, text, List, [], ◌∷◌, ◌++◌, Option, none, some}
use seabird_core.Block.Decimal.{ℤ, show_ℤ}
use seabird_core.Block.{
  Block, block, MaybeInner, no_inner, inner, BlockInner, text_block, inline_code, fenced_code,
  timestamp, italics, bold, underline, strikethrough, spoiler, list, link, blockquote, container,
  heading, MaybeBlock, no_block, just, Blocks, nil, cons,
}

abbrev pub concat : List Text → Text
concat [] = []
concat (t ∷ ts) = t ++ concat ts

abbrev pub join : Text → List Text → Text
join sep [] = []
join sep (t ∷ []) = t
join sep (t ∷ u ∷ ts) = t ++ (sep ++ join sep (u ∷ ts))

-- The epoch stands in for a timestamp that is missing.
abbrev seconds : Option ℤ → ℤ
seconds none = ℤ.pos 0
seconds (some z) = z

-- The text of a tree, whatever plain texts it came with.
unfoldable mutual
  pub rendering : Block → Text
  rendering (block p i) = rendering_inner i

  pub rendering_inner : MaybeInner → Text
  rendering_inner no_inner = []
  rendering_inner (inner i) = rendering_children i

  pub rendering_children : BlockInner → Text
  rendering_children (text_block t) = t
  rendering_children (inline_code t) = t
  rendering_children (fenced_code t) = t
  rendering_children (timestamp t) = show_ℤ (seconds t)
  rendering_children (italics b) = rendering_maybe b
  rendering_children (bold b) = rendering_maybe b
  rendering_children (underline b) = rendering_maybe b
  rendering_children (strikethrough b) = rendering_maybe b
  rendering_children (spoiler b) = rendering_maybe b
  rendering_children (list bs) = join (text ", ") (renderings bs)
  rendering_children (link url b) = rendering_maybe b ++ (text " (" ++ (url ++ text ")"))
  rendering_children (blockquote b) = rendering_maybe b
  rendering_children (container bs) = concat (renderings bs)
  rendering_children (heading b) = rendering_maybe b

  pub rendering_maybe : MaybeBlock → Text
  rendering_maybe no_block = []
  rendering_maybe (just b) = rendering b

  pub renderings : Blocks → List Text
  renderings nil = []
  renderings (cons b bs) = rendering b ∷ renderings bs

-- The tree with each plain text replaced: by its rendering under `fill`, by nothing under `strip`.
unfoldable mutual
  pub fill : Block → Block
  fill (block p i) = block (rendering_inner i) (fill_inner i)

  pub fill_inner : MaybeInner → MaybeInner
  fill_inner no_inner = no_inner
  fill_inner (inner i) = inner (fill_children i)

  pub fill_children : BlockInner → BlockInner
  fill_children (text_block t) = text_block t
  fill_children (inline_code t) = inline_code t
  fill_children (fenced_code t) = fenced_code t
  fill_children (timestamp t) = timestamp t
  fill_children (italics b) = italics (fill_maybe b)
  fill_children (bold b) = bold (fill_maybe b)
  fill_children (underline b) = underline (fill_maybe b)
  fill_children (strikethrough b) = strikethrough (fill_maybe b)
  fill_children (spoiler b) = spoiler (fill_maybe b)
  fill_children (list bs) = list (fill_all bs)
  fill_children (link url b) = link url (fill_maybe b)
  fill_children (blockquote b) = blockquote (fill_maybe b)
  fill_children (container bs) = container (fill_all bs)
  fill_children (heading b) = heading (fill_maybe b)

  pub fill_maybe : MaybeBlock → MaybeBlock
  fill_maybe no_block = no_block
  fill_maybe (just b) = just (fill b)

  pub fill_all : Blocks → Blocks
  fill_all nil = nil
  fill_all (cons b bs) = cons (fill b) (fill_all bs)

unfoldable mutual
  pub strip : Block → Block
  strip (block p i) = block [] (strip_inner i)

  pub strip_inner : MaybeInner → MaybeInner
  strip_inner no_inner = no_inner
  strip_inner (inner i) = inner (strip_children i)

  pub strip_children : BlockInner → BlockInner
  strip_children (text_block t) = text_block t
  strip_children (inline_code t) = inline_code t
  strip_children (fenced_code t) = fenced_code t
  strip_children (timestamp t) = timestamp t
  strip_children (italics b) = italics (strip_maybe b)
  strip_children (bold b) = bold (strip_maybe b)
  strip_children (underline b) = underline (strip_maybe b)
  strip_children (strikethrough b) = strikethrough (strip_maybe b)
  strip_children (spoiler b) = spoiler (strip_maybe b)
  strip_children (list bs) = list (strip_all bs)
  strip_children (link url b) = link url (strip_maybe b)
  strip_children (blockquote b) = blockquote (strip_maybe b)
  strip_children (container bs) = container (strip_all bs)
  strip_children (heading b) = heading (strip_maybe b)

  pub strip_maybe : MaybeBlock → MaybeBlock
  strip_maybe no_block = no_block
  strip_maybe (just b) = just (strip b)

  pub strip_all : Blocks → Blocks
  strip_all nil = nil
  strip_all (cons b bs) = cons (strip b) (strip_all bs)

abbrev pub or_else : Option Text → Option Text → Option Text
or_else none later = later
or_else (some m) later = some m

-- The complaint about the first part that is missing, in the order of the tree.
unfoldable mutual
  pub complaint : Block → Option Text
  complaint (block p i) = complaint_inner i

  pub complaint_inner : MaybeInner → Option Text
  complaint_inner no_inner = some (text "unknown block type")
  complaint_inner (inner i) = complaint_children i

  pub complaint_children : BlockInner → Option Text
  complaint_children (text_block t) = none
  complaint_children (inline_code t) = none
  complaint_children (fenced_code t) = none
  complaint_children (timestamp t) = none
  complaint_children (italics b) = complaint_maybe (text "italics block missing inner block") b
  complaint_children (bold b) = complaint_maybe (text "bold block missing inner block") b
  complaint_children (underline b) = complaint_maybe (text "underline block missing inner block") b
  complaint_children (strikethrough b) =
      complaint_maybe (text "strikethrough block missing inner block") b
  complaint_children (spoiler b) = complaint_maybe (text "spoiler block missing inner block") b
  complaint_children (list bs) = complaint_all bs
  complaint_children (link url b) = complaint_maybe (text "link block missing inner block") b
  complaint_children (blockquote b) =
      complaint_maybe (text "blockquote block missing inner block") b
  complaint_children (container bs) = complaint_all bs
  complaint_children (heading b) = complaint_maybe (text "heading block missing inner block") b

  pub complaint_maybe : Text → MaybeBlock → Option Text
  complaint_maybe message no_block = some message
  complaint_maybe message (just b) = complaint b

  pub complaint_all : Blocks → Option Text
  complaint_all nil = none
  complaint_all (cons b bs) = or_else (complaint b) (complaint_all bs)
