-- ===== src/Block.antt =====
-- src/utils.rs: message blocks, and how their plain text is filled in.
pub mod Decimal
pub mod Described
pub mod Normal
pub mod Stable
pub mod Message
use seabird_core.Prelude.{
  ℕ, Text, text, List, [], ◌∷◌, ◌++◌, Option, none, some, Result, ok, err, RpcResult, status,
  invalid_argument,
}
use Decimal.{ℤ, show_ℤ}

-- `proto::Block` with its `Option<BlockInner>`, the struct of each formatting block with its
-- `Option<Box<Block>>`, and the `Vec<Block>` of a list and a container. A `timestamp` holds the
-- seconds of its `Option<Timestamp>`.
mutual
  pub data Block : Type 0 where
    block : Text → MaybeInner → Block

  pub data MaybeInner : Type 0 where
    no_inner : MaybeInner
    inner : BlockInner → MaybeInner

  pub data BlockInner : Type 0 where
    text_block inline_code fenced_code : Text → BlockInner
    timestamp : Option ℤ → BlockInner
    italics bold underline strikethrough spoiler blockquote heading : MaybeBlock → BlockInner
    link : Text → MaybeBlock → BlockInner
    list container : Blocks → BlockInner

  pub data MaybeBlock : Type 0 where
    no_block : MaybeBlock
    just : Block → MaybeBlock

  pub data Blocks : Type 0 where
    nil : Blocks
    cons : Block → Blocks → Blocks

abbrev pub plain : Block → Text
plain (block p i) = p

-- `.iter().map(|block| block.plain.as_str()).collect()` over an `Option<Box<Block>>`
unfoldable pub plain_maybe : MaybeBlock → Text
plain_maybe no_block = []
plain_maybe (just b) = plain b

-- ... over a `Vec<Block>`
unfoldable pub plain_all : Blocks → Text
plain_all nil = []
plain_all (cons b bs) = plain b ++ plain_all bs

-- ... with `.intersperse(sep)`
unfoldable pub plain_intersperse : Text → Blocks → Text
plain_intersperse sep nil = []
plain_intersperse sep (cons b nil) = plain b
plain_intersperse sep (cons b (cons c bs)) = plain b ++ (sep ++ plain_intersperse sep (cons c bs))

unfoldable pub render_inner_block : BlockInner → RpcResult Text
unfolding plain_maybe plain_all plain_intersperse
render_inner_block (text_block t) = ok t
render_inner_block (inline_code t) = ok t
render_inner_block (fenced_code t) = ok t
render_inner_block (timestamp none) = ok (show_ℤ (ℤ.pos 0))
render_inner_block (timestamp (some seconds)) = ok (show_ℤ seconds)
render_inner_block (italics b) = ok (plain_maybe b)
render_inner_block (bold b) = ok (plain_maybe b)
render_inner_block (underline b) = ok (plain_maybe b)
render_inner_block (strikethrough b) = ok (plain_maybe b)
render_inner_block (spoiler b) = ok (plain_maybe b)
render_inner_block (list bs) = ok (plain_intersperse (text ", ") bs)
render_inner_block (link url b) = ok (plain_maybe b ++ (text " (" ++ (url ++ text ")")))
render_inner_block (blockquote b) = ok (plain_maybe b)
render_inner_block (container bs) = ok (plain_all bs)
render_inner_block (heading b) = ok (plain_maybe b)

abbrev missing : Text → RpcResult MaybeBlock
missing message = err (status invalid_argument message)

abbrev and_then_inner : (MaybeBlock → BlockInner) → RpcResult MaybeBlock → RpcResult BlockInner
and_then_inner con (ok b) = ok (con b)
and_then_inner con (err e) = err e

abbrev and_then_list : (Blocks → BlockInner) → RpcResult Blocks → RpcResult BlockInner
and_then_list con (ok bs) = ok (con bs)
and_then_list con (err e) = err e

abbrev and_then_just : RpcResult Block → RpcResult MaybeBlock
and_then_just (ok b) = ok (just b)
and_then_just (err e) = err e

abbrev and_then_cons : RpcResult Block → RpcResult Blocks → RpcResult Blocks
and_then_cons (ok b) (ok bs) = ok (cons b bs)
and_then_cons (ok b) (err e) = err e
and_then_cons (err e) more = err e

-- `block.plain = render_inner_block(&inner)?`
abbrev fill_plain : RpcResult BlockInner → RpcResult Block
fill_plain (ok i) = elim (render_inner_block i) [ ok p ↦ ok (block p (inner i)) | err e ↦ err e ]
fill_plain (err e) = err e

-- What is written in place before an error is dropped with the block, so a result has it all.
unfoldable mutual
  pub normalize_block_inner : Block → RpcResult Block
  normalize_block_inner (block p i) = fill_plain (normalize_inner i)

  -- the match on `block.inner`
  pub normalize_inner : MaybeInner → RpcResult BlockInner
  normalize_inner no_inner = err (status invalid_argument (text "unknown block type"))
  normalize_inner (inner i) = normalize_children i

  -- the match on `inner`
  pub normalize_children : BlockInner → RpcResult BlockInner
  normalize_children (text_block t) = ok (text_block t)
  normalize_children (inline_code t) = ok (inline_code t)
  normalize_children (fenced_code t) = ok (fenced_code t)
  normalize_children (timestamp t) = ok (timestamp t)
  normalize_children (italics b) =
      and_then_inner italics (normalize_maybe (text "italics block missing inner block") b)
  normalize_children (bold b) =
      and_then_inner bold (normalize_maybe (text "bold block missing inner block") b)
  normalize_children (underline b) =
      and_then_inner underline (normalize_maybe (text "underline block missing inner block") b)
  normalize_children (strikethrough b) =
      and_then_inner strikethrough
        (normalize_maybe (text "strikethrough block missing inner block") b)
  normalize_children (spoiler b) =
      and_then_inner spoiler (normalize_maybe (text "spoiler block missing inner block") b)
  normalize_children (list bs) = and_then_list list (normalize_all bs)
  normalize_children (link url b) =
      and_then_inner (link url) (normalize_maybe (text "link block missing inner block") b)
  normalize_children (blockquote b) =
      and_then_inner blockquote (normalize_maybe (text "blockquote block missing inner block") b)
  normalize_children (container bs) = and_then_list container (normalize_all bs)
  normalize_children (heading b) =
      and_then_inner heading (normalize_maybe (text "heading block missing inner block") b)

  -- `.inner.as_mut().ok_or_else(..)?` and the recursive call
  pub normalize_maybe : Text → MaybeBlock → RpcResult MaybeBlock
  normalize_maybe message no_block = missing message
  normalize_maybe message (just b) = and_then_just (normalize_block_inner b)

  -- `.iter_mut().try_for_each(normalize_block_inner)?`
  pub normalize_all : Blocks → RpcResult Blocks
  normalize_all nil = ok nil
  normalize_all (cons b bs) = and_then_cons (normalize_block_inner b) (normalize_all bs)
