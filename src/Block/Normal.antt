-- ===== src/Block/Normal.antt =====
-- `normalize_block_inner` of src/utils.rs does what Block/Described.antt says.
use seabird_core.Prelude.{
  Text, text, ◌++◌, Option, none, some, RpcResult, ok, err, status, invalid_argument, ◌≡◌, refl, ap,
  arith,
}
use seabird_core.Block.{
  Block, block, plain, no_inner, inner, BlockInner, text_block, inline_code, fenced_code, timestamp,
  italics, bold, underline, strikethrough, spoiler, list, link, blockquote, container, heading,
  MaybeBlock, no_block, just, Blocks, nil, cons, render_inner_block, normalize_block_inner,
  normalize_children, normalize_maybe, normalize_all, plain_maybe, plain_all, plain_intersperse,
}
use seabird_core.Block.Described.{
  rendering, rendering_inner, rendering_children, rendering_maybe, renderings, fill, fill_children,
  fill_maybe, fill_all, complaint, complaint_children, complaint_maybe, complaint_all, concat, join,
}

-- The tree `a` if nothing is missing, and else the complaint.
abbrev pub outcome {ℓ} : {A : Type ℓ} → Option Text → A → RpcResult A
outcome none a = ok a
outcome (some m) a = err (status invalid_argument m)

plain_maybe-fill : (b : MaybeBlock) → plain_maybe (fill_maybe b) ≡ rendering_maybe b
unfolding plain_maybe fill rendering
plain_maybe-fill no_block = refl
plain_maybe-fill (just (block p i)) = refl

pub plain-fill : (b : Block) → plain (fill b) ≡ rendering b
unfolding fill rendering
plain-fill (block p i) = refl

plain_all-fill : (bs : Blocks) → plain_all (fill_all bs) ≡ concat (renderings bs)
unfolding plain_all fill rendering
plain_all-fill nil = refl
plain_all-fill (cons (block p i) bs) = ap (◌++◌ (rendering_inner i)) (plain_all-fill bs)

plain_intersperse-fill :
    (sep : Text) (bs : Blocks) → plain_intersperse sep (fill_all bs) ≡ join sep (renderings bs)
unfolding plain_intersperse fill rendering
plain_intersperse-fill sep nil = refl
plain_intersperse-fill sep (cons (block p i) nil) = refl
plain_intersperse-fill sep (cons (block p i) (cons (block q j) bs)) =
    ap (λ t. rendering_inner i ++ (sep ++ t)) (plain_intersperse-fill sep (cons (block q j) bs))

render-fill : (i : BlockInner) → render_inner_block (fill_children i) ≡ ok (rendering_children i)
unfolding render_inner_block fill rendering
render-fill (text_block t) = refl
render-fill (timestamp none) = refl
render-fill (timestamp (some z)) = refl
render-fill (list bs) = ap ok (plain_intersperse-fill (text ", ") bs)
render-fill (container bs) = ap ok (plain_all-fill bs)
render-fill (link url b) = ap (λ t. ok (t ++ (text " (" ++ (url ++ text ")")))) (plain_maybe-fill b)
render-fill (inline_code t) = refl
render-fill (fenced_code t) = refl
render-fill (italics b) = ap ok (plain_maybe-fill b)
render-fill (bold b) = ap ok (plain_maybe-fill b)
render-fill (underline b) = ap ok (plain_maybe-fill b)
render-fill (strikethrough b) = ap ok (plain_maybe-fill b)
render-fill (spoiler b) = ap ok (plain_maybe-fill b)
render-fill (blockquote b) = ap ok (plain_maybe-fill b)
render-fill (heading b) = ap ok (plain_maybe-fill b)

mutual
  unfolding normalize_block_inner fill rendering complaint

  normalize_lem : (b : Block) → normalize_block_inner b ≡ outcome (complaint b) (fill b)
  normalize_lem (block p no_inner) = refl
  normalize_lem (block p (inner i)) = ground (arith, normalize_children_lem i, render-fill i)

  normalize_children_lem :
      (i : BlockInner) → normalize_children i ≡ outcome (complaint_children i) (fill_children i)
  normalize_children_lem (text_block t) = refl
  normalize_children_lem (inline_code t) = refl
  normalize_children_lem (fenced_code t) = refl
  normalize_children_lem (timestamp t) = refl
  normalize_children_lem (italics b) =
      ground (arith, normalize_maybe_lem (text "italics block missing inner block") b)
  normalize_children_lem (bold b) =
      ground (arith, normalize_maybe_lem (text "bold block missing inner block") b)
  normalize_children_lem (underline b) =
      ground (arith, normalize_maybe_lem (text "underline block missing inner block") b)
  normalize_children_lem (strikethrough b) =
      ground (arith, normalize_maybe_lem (text "strikethrough block missing inner block") b)
  normalize_children_lem (spoiler b) =
      ground (arith, normalize_maybe_lem (text "spoiler block missing inner block") b)
  normalize_children_lem (list bs) = ground (arith, normalize_all_lem bs)
  normalize_children_lem (link url b) =
      ground (arith, normalize_maybe_lem (text "link block missing inner block") b)
  normalize_children_lem (blockquote b) =
      ground (arith, normalize_maybe_lem (text "blockquote block missing inner block") b)
  normalize_children_lem (container bs) = ground (arith, normalize_all_lem bs)
  normalize_children_lem (heading b) =
      ground (arith, normalize_maybe_lem (text "heading block missing inner block") b)

  normalize_maybe_lem :
      (m : Text) (b : MaybeBlock)
      → normalize_maybe m b ≡ outcome (complaint_maybe m b) (fill_maybe b)
  normalize_maybe_lem m no_block = refl
  normalize_maybe_lem m (just b) = ground (arith, normalize_lem b)

  normalize_all_lem : (bs : Blocks) → normalize_all bs ≡ outcome (complaint_all bs) (fill_all bs)
  normalize_all_lem nil = refl
  normalize_all_lem (cons b bs) = ground (arith, normalize_lem b, normalize_all_lem bs)

-- A tree in which no block and no kind of block is missing is returned with each plain text replaced
-- by the rendering of its part; any other is refused as invalid, with the complaint about the first
-- missing one. A timestamp without a time is not refused: it reads 0.
pub normalize_block_inner-eq :
    (b : Block) → normalize_block_inner b ≡ outcome (complaint b) (fill b)
normalize_block_inner-eq b = normalize_lem b
