-- ===== src/Vhdl/Lexer/Spelling.antt =====
-- How a token stands for the bytes it was read from, and the tokens whose literal is that text.
use jcore_soc.Base.{
  ℕ, ◌+◌, ◌≤◌, ◌<◌, ◌≡◌, refl, sym, ap, ◌∙◌, Bool, true, false, [], ◌∷◌, ◌++◌, arith, length, Bytes,
}
use jcore_soc.Vhdl.Kind.{
  Kind, illegal, eof, char_lit, lparen, rparen, lbracket, rbracket, comma, semicolon, colon, assign,
  arrow, less_eq, greater_eq, not_eq, less, greater, equal, plus, minus, star, slash, exp, amp, bar,
  dot, tick, box, kind_str, is_keyword, is_eof,
}
use jcore_soc.Vhdl.Source.{pos, Token}
use jcore_soc.Vhdl.Lexer.{rune_text, emit_text}
use jcore_soc.Vhdl.Lexer.Scan.{Lexer, skip, advance_in}
use jcore_soc.Vhdl.Lexer.Advances.{Advances, Runs, lexeme-eaten}

-- A literal is the text itself, or its bytes transcribed to UTF-8; a delimiter is its kind's text.
pub data Spelling : Type 0 where
  copied transcribed fixed at_end : Spelling

abbrev pub spelling : Kind → Spelling
spelling eof = at_end
spelling illegal = transcribed
spelling char_lit = transcribed
spelling lparen = fixed
spelling rparen = fixed
spelling lbracket = fixed
spelling rbracket = fixed
spelling comma = fixed
spelling semicolon = fixed
spelling colon = fixed
spelling assign = fixed
spelling arrow = fixed
spelling less_eq = fixed
spelling greater_eq = fixed
spelling not_eq = fixed
spelling less = fixed
spelling greater = fixed
spelling equal = fixed
spelling plus = fixed
spelling minus = fixed
spelling star = fixed
spelling slash = fixed
spelling exp = fixed
spelling amp = fixed
spelling bar = fixed
spelling dot = fixed
spelling tick = fixed
spelling box = fixed
spelling _ = copied

-- The UTF-8 text of the bytes read as code points; an ASCII text is its own transcript.
abbrev pub transcribe : Bytes → Bytes
transcribe [] = []
transcribe (c ∷ s) = rune_text c ++ transcribe s

abbrev pub SpellsAs : Spelling → Token → Bytes → Type 0
SpellsAs copied t s = t.lit ≡ s
SpellsAs transcribed t s = t.lit ≡ transcribe s
SpellsAs fixed t s = (t.lit ≡ []) × (kind_str t.kind ≡ s)
SpellsAs at_end t s = (t.lit ≡ []) × (s ≡ [])

-- The token `t` stands for the text `s`.
abbrev pub Spells : Token → Bytes → Type 0
Spells t s = SpellsAs (spelling t.kind) t s

-- A token that starts at the lexer `l`: it is no EOF, and its text is not empty.
pub record Lexes (l : Lexer) (t : Token) (l' : Lexer) : Type 0 where
  pub advances : Advances l l'
  pub spells : Spells t advances.eaten
  pub placed : t.pos ≡ pos l.file l.off
  pub progress : l.off < l'.off
  pub not_eof : is_eof t.kind ≡ false

pub Advances-le : {l l' : Lexer} → Advances l l' → l.off ≤ l'.off
Advances-le a = omega (arith, a.moved)

pub off-skip : (l : Lexer) (c : ℕ) (cs : Bytes) → l.rest ≡ c ∷ cs → (skip l).off ≡ l.off + 1
unfolding advance_in
off-skip l c cs e = rw (e, advance_in)

pub rest-skip : (l : Lexer) (c : ℕ) (cs : Bytes) → l.rest ≡ c ∷ cs → (skip l).rest ≡ cs
unfolding advance_in
rest-skip l c cs e = rw (e, advance_in)

-- A loop whose class holds of the next byte moves.
pub Runs-lt :
    {p : ℕ → Bool} {l l' : Lexer} (c : ℕ) (cs : Bytes)
    → Runs p l l'
    → l.rest ≡ c ∷ cs
    → p c ≡ true
    → l.off < l'.off
Runs-lt {p} {l} {l'} c cs r e h = go r.advances.eaten refl
  where
    go : (s : Bytes) → r.advances.eaten ≡ s → l.off < l'.off
    go [] none_eaten = cc (h, r.stops c cs (sym (rw none_eaten at r.advances.splits) ∙ e))
    go (d ∷ ds) some_eaten = omega (arith, r.advances.moved, ap length some_eaten)

module _ (k : Kind) (l l' : Lexer) where
  pub emit_text-Lexes :
      Advances l l'
      → spelling k ≡ copied
      → is_eof k ≡ false
      → l.off < l'.off
      → Lexes l (emit_text k l l').0 (emit_text k l l').1
  emit_text-Lexes a c n p = record {
    advances = record { eaten = a.eaten; splits = a.splits; moved = a.moved; noted = a.noted };
    spells = rw c (lexeme-eaten a);
    placed = refl;
    progress = p;
    not_eof = n;
  }

pub keyword-copied : (k : Kind) → is_keyword k ≡ true → spelling k ≡ copied
unfolding is_keyword
keyword-copied lparen h = cc
keyword-copied rparen h = cc
keyword-copied lbracket h = cc
keyword-copied rbracket h = cc
keyword-copied comma h = cc
keyword-copied semicolon h = cc
keyword-copied colon h = cc
keyword-copied assign h = cc
keyword-copied arrow h = cc
keyword-copied less_eq h = cc
keyword-copied greater_eq h = cc
keyword-copied not_eq h = cc
keyword-copied less h = cc
keyword-copied greater h = cc
keyword-copied equal h = cc
keyword-copied plus h = cc
keyword-copied minus h = cc
keyword-copied star h = cc
keyword-copied slash h = cc
keyword-copied exp h = cc
keyword-copied amp h = cc
keyword-copied bar h = cc
keyword-copied dot h = cc
keyword-copied tick h = cc
keyword-copied box h = cc
keyword-copied illegal h = cc
keyword-copied eof h = cc
keyword-copied char_lit h = cc
keyword-copied _ h = refl
