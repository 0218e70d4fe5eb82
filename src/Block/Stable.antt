-- ===== src/Block/Stable.antt =====
-- The plain texts that a client sends do not matter, and a normalized block is its own normal form.
use seabird_core.Prelude.{Text, text, ◌∷◌, ◌++◌, ok, ◌≡◌, refl, ap, ap₂, arith}
use seabird_core.Block.{
  Block, block, no_inner, inner, BlockInner, text_block, inline_code, fenced_code, timestamp,
  italics, bold, underline, strikethrough, spoiler, list, link, blockquote, container, heading,
  MaybeBlock, no_block, just, Blocks, nil, cons, normalize_block_inner,
}
use seabird_core.Block.Described.{
  rendering, rendering_children, rendering_maybe, renderings, fill, fill_children, fill_maybe,
  fill_all, strip, strip_children, strip_maybe, strip_all, complaint, complaint_children,
  complaint_maybe, complaint_all, concat, join, or_else,
}
use seabird_core.Block.Normal.{normalize_block_inner-eq}

mutual
  unfolding rendering fill strip

  rendering-fill : (b : Block) → rendering (fill b) ≡ rendering b
  rendering-fill (block p no_inner) = refl
  rendering-fill (block p (inner i)) = rendering_children-fill i

  rendering_children-fill :
      (i : BlockInner) → rendering_children (fill_children i) ≡ rendering_children i
  rendering_children-fill (text_block t) = refl
  rendering_children-fill (inline_code t) = refl
  rendering_children-fill (fenced_code t) = refl
  rendering_children-fill (timestamp t) = refl
  rendering_children-fill (italics b) = rendering_maybe-fill b
  rendering_children-fill (bold b) = rendering_maybe-fill b
  rendering_children-fill (underline b) = rendering_maybe-fill b
  rendering_children-fill (strikethrough b) = rendering_maybe-fill b
  rendering_children-fill (spoiler b) = rendering_maybe-fill b
  rendering_children-fill (list bs) = ap (join (text ", ")) (renderings-fill bs)
  rendering_children-fill (link url b) =
      ap (λ t. t ++ (text " (" ++ (url ++ text ")"))) (rendering_maybe-fill b)
  rendering_children-fill (blockquote b) = rendering_maybe-fill b
  rendering_children-fill (container bs) = ap concat (renderings-fill bs)
  rendering_children-fill (heading b) = rendering_maybe-fill b

  rendering_maybe-fill : (b : MaybeBlock) → rendering_maybe (fill_maybe b) ≡ rendering_maybe b
  rendering_maybe-fill no_block = refl
  rendering_maybe-fill (just b) = rendering-fill b

  renderings-fill : (bs : Blocks) → renderings (fill_all bs) ≡ renderings bs
  renderings-fill nil = refl
  renderings-fill (cons b bs) = ap₂ ◌∷◌ (rendering-fill b) (renderings-fill bs)

mutual
  unfolding complaint fill strip

  complaint-fill : (b : Block) → complaint (fill b) ≡ complaint b
  complaint-fill (block p no_inner) = refl
  complaint-fill (block p (inner i)) = complaint_children-fill i

  complaint_children-fill :
      (i : BlockInner) → complaint_children (fill_children i) ≡ complaint_children i
  complaint_children-fill (text_block t) = refl
  complaint_children-fill (inline_code t) = refl
  complaint_children-fill (fenced_code t) = refl
  complaint_children-fill (timestamp t) = refl
  complaint_children-fill (italics b) = complaint_maybe-fill _ b
  complaint_children-fill (bold b) = complaint_maybe-fill _ b
  complaint_children-fill (underline b) = complaint_maybe-fill _ b
  complaint_children-fill (strikethrough b) = complaint_maybe-fill _ b
  complaint_children-fill (spoiler b) = complaint_maybe-fill _ b
  complaint_children-fill (list bs) = complaint_all-fill bs
  complaint_children-fill (link url b) = complaint_maybe-fill _ b
  complaint_children-fill (blockquote b) = complaint_maybe-fill _ b
  complaint_children-fill (container bs) = complaint_all-fill bs
  complaint_children-fill (heading b) = complaint_maybe-fill _ b

  complaint_maybe-fill :
      (m : Text) (b : MaybeBlock) → complaint_maybe m (fill_maybe b) ≡ complaint_maybe m b
  complaint_maybe-fill m no_block = refl
  complaint_maybe-fill m (just b) = complaint-fill b

  complaint_all-fill : (bs : Blocks) → complaint_all (fill_all bs) ≡ complaint_all bs
  complaint_all-fill nil = refl
  complaint_all-fill (cons b bs) = ap₂ or_else (complaint-fill b) (complaint_all-fill bs)

mutual
  unfolding rendering fill strip

  fill-fill : (b : Block) → fill (fill b) ≡ fill b
  fill-fill (block p no_inner) = refl
  fill-fill (block p (inner i)) =
      ap₂ (λ t j. block t (inner j)) (rendering_children-fill i) (fill_children-fill i)

  fill_children-fill : (i : BlockInner) → fill_children (fill_children i) ≡ fill_children i
  fill_children-fill (text_block t) = refl
  fill_children-fill (inline_code t) = refl
  fill_children-fill (fenced_code t) = refl
  fill_children-fill (timestamp t) = refl
  fill_children-fill (italics b) = ap italics (fill_maybe-fill b)
  fill_children-fill (bold b) = ap bold (fill_maybe-fill b)
  fill_children-fill (underline b) = ap underline (fill_maybe-fill b)
  fill_children-fill (strikethrough b) = ap strikethrough (fill_maybe-fill b)
  fill_children-fill (spoiler b) = ap spoiler (fill_maybe-fill b)
  fill_children-fill (list bs) = ap list (fill_all-fill bs)
  fill_children-fill (link url b) = ap (link url) (fill_maybe-fill b)
  fill_children-fill (blockquote b) = ap blockquote (fill_maybe-fill b)
  fill_children-fill (container bs) = ap container (fill_all-fill bs)
  fill_children-fill (heading b) = ap heading (fill_maybe-fill b)

  fill_maybe-fill : (b : MaybeBlock) → fill_maybe (fill_maybe b) ≡ fill_maybe b
  fill_maybe-fill no_block = refl
  fill_maybe-fill (just b) = ap just (fill-fill b)

  fill_all-fill : (bs : Blocks) → fill_all (fill_all bs) ≡ fill_all bs
  fill_all-fill nil = refl
  fill_all-fill (cons b bs) = ap₂ cons (fill-fill b) (fill_all-fill bs)

mutual
  unfolding rendering fill strip

  rendering-strip : (b : Block) → rendering (strip b) ≡ rendering b
  rendering-strip (block p no_inner) = refl
  rendering-strip (block p (inner i)) = rendering_children-strip i

  rendering_children-strip :
      (i : BlockInner) → rendering_children (strip_children i) ≡ rendering_children i
  rendering_children-strip (text_block t) = refl
  rendering_children-strip (inline_code t) = refl
  rendering_children-strip (fenced_code t) = refl
  rendering_children-strip (timestamp t) = refl
  rendering_children-strip (italics b) = rendering_maybe-strip b
  rendering_children-strip (bold b) = rendering_maybe-strip b
  rendering_children-strip (underline b) = rendering_maybe-strip b
  rendering_children-strip (strikethrough b) = rendering_maybe-strip b
  rendering_children-strip (spoiler b) = rendering_maybe-strip b
  rendering_children-strip (list bs) = ap (join (text ", ")) (renderings-strip bs)
  rendering_children-strip (link url b) =
      ap (λ t. t ++ (text " (" ++ (url ++ text ")"))) (rendering_maybe-strip b)
  rendering_children-strip (blockquote b) = rendering_maybe-strip b
  rendering_children-strip (container bs) = ap concat (renderings-strip bs)
  rendering_children-strip (heading b) = rendering_maybe-strip b

  rendering_maybe-strip : (b : MaybeBlock) → rendering_maybe (strip_maybe b) ≡ rendering_maybe b
  rendering_maybe-strip no_block = refl
  rendering_maybe-strip (just b) = rendering-strip b

  renderings-strip : (bs : Blocks) → renderings (strip_all bs) ≡ renderings bs
  renderings-strip nil = refl
  renderings-strip (cons b bs) = ap₂ ◌∷◌ (rendering-strip b) (renderings-strip bs)

mutual
  unfolding complaint fill strip

  complaint-strip : (b : Block) → complaint (strip b) ≡ complaint b
  complaint-strip (block p no_inner) = refl
  complaint-strip (block p (inner i)) = complaint_children-strip i

  complaint_children-strip :
      (i : BlockInner) → complaint_children (strip_children i) ≡ complaint_children i
  complaint_children-strip (text_block t) = refl
  complaint_children-strip (inline_code t) = refl
  complaint_children-strip (fenced_code t) = refl
  complaint_children-strip (timestamp t) = refl
  complaint_children-strip (italics b) = complaint_maybe-strip _ b
  complaint_children-strip (bold b) = complaint_maybe-strip _ b
  complaint_children-strip (underline b) = complaint_maybe-strip _ b
  complaint_children-strip (strikethrough b) = complaint_maybe-strip _ b
  complaint_children-strip (spoiler b) = complaint_maybe-strip _ b
  complaint_children-strip (list bs) = complaint_all-strip bs
  complaint_children-strip (link url b) = complaint_maybe-strip _ b
  complaint_children-strip (blockquote b) = complaint_maybe-strip _ b
  complaint_children-strip (container bs) = complaint_all-strip bs
  complaint_children-strip (heading b) = complaint_maybe-strip _ b

  complaint_maybe-strip :
      (m : Text) (b : MaybeBlock) → complaint_maybe m (strip_maybe b) ≡ complaint_maybe m b
  complaint_maybe-strip m no_block = refl
  complaint_maybe-strip m (just b) = complaint-strip b

  complaint_all-strip : (bs : Blocks) → complaint_all (strip_all bs) ≡ complaint_all bs
  complaint_all-strip nil = refl
  complaint_all-strip (cons b bs) = ap₂ or_else (complaint-strip b) (complaint_all-strip bs)

mutual
  unfolding rendering fill strip

  fill-strip : (b : Block) → fill (strip b) ≡ fill b
  fill-strip (block p no_inner) = refl
  fill-strip (block p (inner i)) =
      ap₂ (λ t j. block t (inner j)) (rendering_children-strip i) (fill_children-strip i)

  fill_children-strip : (i : BlockInner) → fill_children (strip_children i) ≡ fill_children i
  fill_children-strip (text_block t) = refl
  fill_children-strip (inline_code t) = refl
  fill_children-strip (fenced_code t) = refl
  fill_children-strip (timestamp t) = refl
  fill_children-strip (italics b) = ap italics (fill_maybe-strip b)
  fill_children-strip (bold b) = ap bold (fill_maybe-strip b)
  fill_children-strip (underline b) = ap underline (fill_maybe-strip b)
  fill_children-strip (strikethrough b) = ap strikethrough (fill_maybe-strip b)
  fill_children-strip (spoiler b) = ap spoiler (fill_maybe-strip b)
  fill_children-strip (list bs) = ap list (fill_all-strip bs)
  fill_children-strip (link url b) = ap (link url) (fill_maybe-strip b)
  fill_children-strip (blockquote b) = ap blockquote (fill_maybe-strip b)
  fill_children-strip (container bs) = ap container (fill_all-strip bs)
  fill_children-strip (heading b) = ap heading (fill_maybe-strip b)

  fill_maybe-strip : (b : MaybeBlock) → fill_maybe (strip_maybe b) ≡ fill_maybe b
  fill_maybe-strip no_block = refl
  fill_maybe-strip (just b) = ap just (fill-strip b)

  fill_all-strip : (bs : Blocks) → fill_all (strip_all bs) ≡ fill_all bs
  fill_all-strip nil = refl
  fill_all-strip (cons b bs) = ap₂ cons (fill-strip b) (fill_all-strip bs)

-- Whatever plain texts a block comes with, at any depth, the result is that of the block without
-- them.
pub normalize-strip : (b : Block) → normalize_block_inner (strip b) ≡ normalize_block_inner b
normalize-strip b = simp (normalize_block_inner-eq, complaint-strip, fill-strip)

-- A block that normalization returned is returned unchanged when it is normalized again.
pub normalize_idem : (a b : Block) → normalize_block_inner a ≡ ok b → normalize_block_inner b ≡ ok b
normalize_idem a b h =
    ground
      (arith, normalize_block_inner-eq a, normalize_block_inner-eq b, complaint-fill a, fill-fill a)
