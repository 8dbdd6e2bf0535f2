-- ===== src/Json/Print.antt =====
-- Texts of values, for the parser to read back: a printer that is not the program's. The gap `g` stands
-- wherever blanks may stand, and each part is put in front of what follows it.
use qaiosplus.Base.{ℕ, ◌+◌, Bool, true, false, not, ◌&&◌, ◌||◌, [], ◌∷◌, ◌++◌, ◌==◌, if◌then◌else◌}
use qaiosplus.Json.Number.{Arithmetic}
use qaiosplus.Json.Tree.{
  Value, Members, Elements, null, boolean, number, string, object, array, no_members, member,
  no_elements, element,
}
use qaiosplus.Json.Literal.{Literal, IsLiteral, literal_onto, meaning}
use qaiosplus.Json.Scanner.{Text, is_blank}

abbrev pub all_blank : Text → Bool
all_blank [] = true
all_blank (c ∷ s) = is_blank c && all_blank s

-- Quotes and backslashes stand behind a backslash, all else stands for itself.
unfoldable pub characters_onto : Text → Text → Text
characters_onto [] r = b'"' ∷ r
characters_onto (c ∷ s) r =
    if (c == b'"') || (c == b'\\') then b'\\' ∷ c ∷ characters_onto s r else c ∷ characters_onto s r

abbrev pub quoted_onto : Text → Text → Text
quoted_onto s r = b'"' ∷ characters_onto s r

module _ (g : Text) where
  unfoldable mutual
    pub value_onto : Value Literal → Text → Text
    value_onto null r = b'n' ∷ b'u' ∷ b'l' ∷ b'l' ∷ r
    value_onto (boolean true) r = b't' ∷ b'r' ∷ b'u' ∷ b'e' ∷ r
    value_onto (boolean false) r = b'f' ∷ b'a' ∷ b'l' ∷ b's' ∷ b'e' ∷ r
    value_onto (number l) r = literal_onto l r
    value_onto (string s) r = quoted_onto s r
    value_onto (object ms) r = b'{' ∷ (g ++ members_onto ms r)
    value_onto (array vs) r = b'[' ∷ (g ++ elements_onto vs r)

    pub members_onto : Members Literal → Text → Text
    members_onto no_members r = b'}' ∷ r
    members_onto (member key v ms) r =
        quoted_onto key (g ++ (b':' ∷ (g ++ value_onto v (g ++ more_members_onto ms r))))

    pub more_members_onto : Members Literal → Text → Text
    more_members_onto no_members r = b'}' ∷ r
    more_members_onto (member key v ms) r =
        b','
        ∷ (g ++ quoted_onto key (g ++ (b':' ∷ (g ++ value_onto v (g ++ more_members_onto ms r)))))

    pub elements_onto : Elements Literal → Text → Text
    elements_onto no_elements r = b']' ∷ r
    elements_onto (element v vs) r = value_onto v (g ++ more_elements_onto vs r)

    pub more_elements_onto : Elements Literal → Text → Text
    more_elements_onto no_elements r = b']' ∷ r
    more_elements_onto (element v vs) r = b',' ∷ (g ++ value_onto v (g ++ more_elements_onto vs r))

  abbrev pub print : Value Literal → Text
  print v = g ++ value_onto v g

-- The numbers in a value are literals.
unfoldable mutual
  pub IsDoc : Value Literal → Type 0
  IsDoc null = Unit {0}
  IsDoc (boolean b) = Unit {0}
  IsDoc (number l) = IsLiteral l
  IsDoc (string s) = Unit {0}
  IsDoc (object ms) = IsDocMembers ms
  IsDoc (array vs) = IsDocElements vs

  pub IsDocMembers : Members Literal → Type 0
  IsDocMembers no_members = Unit {0}
  IsDocMembers (member key v ms) = IsDoc v × IsDocMembers ms

  pub IsDocElements : Elements Literal → Type 0
  IsDocElements no_elements = Unit {0}
  IsDocElements (element v vs) = IsDoc v × IsDocElements vs

-- No string and no key has a 0, which would end it for the program: strings are C strings there.
abbrev pub has_no_end : Text → Bool
has_no_end [] = true
has_no_end (c ∷ s) = not (c == 0) && has_no_end s

unfoldable mutual
  pub is_text : Value Literal → Bool
  is_text null = true
  is_text (boolean b) = true
  is_text (number l) = true
  is_text (string s) = has_no_end s
  is_text (object ms) = is_text_members ms
  is_text (array vs) = is_text_elements vs

  pub is_text_members : Members Literal → Bool
  is_text_members no_members = true
  is_text_members (member key v ms) = has_no_end key && (is_text v && is_text_members ms)

  pub is_text_elements : Elements Literal → Bool
  is_text_elements no_elements = true
  is_text_elements (element v vs) = is_text v && is_text_elements vs

-- The calls of the parser that are inside of each other at most.
unfoldable mutual
  pub size : Value Literal → ℕ
  size null = 1
  size (boolean b) = 1
  size (number l) = 1
  size (string s) = 1
  size (object ms) = 1 + size_members ms
  size (array vs) = 1 + size_elements vs

  pub size_members : Members Literal → ℕ
  size_members no_members = 0
  size_members (member key v ms) = 1 + size v + size_members ms

  pub size_elements : Elements Literal → ℕ
  size_elements no_elements = 0
  size_elements (element v vs) = 1 + size v + size_elements vs

-- The value with the numbers in place of the literals.
module _ {D : Type 0} (arithmetic : Arithmetic D) where
  unfoldable mutual
    pub numbers : Value Literal → Value D
    numbers null = null
    numbers (boolean b) = boolean b
    numbers (number l) = number (meaning arithmetic l)
    numbers (string s) = string s
    numbers (object ms) = object (numbers_members ms)
    numbers (array vs) = array (numbers_elements vs)

    pub numbers_members : Members Literal → Members D
    numbers_members no_members = no_members
    numbers_members (member key v ms) = member key (numbers v) (numbers_members ms)

    pub numbers_elements : Elements Literal → Elements D
    numbers_elements no_elements = no_elements
    numbers_elements (element v vs) = element (numbers v) (numbers_elements vs)
