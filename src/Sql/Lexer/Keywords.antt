-- ===== src/Sql/Lexer/Keywords.antt =====
-- The keywords of src/SQL_interpreter/lexer.c: one function for each letter that several keywords
-- start with. A `case` that falls through to the next is written as that next `case`.
use stripe_sql.Prelude.{◌==◌, if◌then◌else◌}
use stripe_sql.Sql.Token.{TokenType, codes}
use stripe_sql.Sql.Lexer.{Lexer, letter, check_keyword}

unfoldable pub after_a : Lexer → TokenType
after_a lex =
    if letter lex 1 == b'd'
    then check_keyword lex 1 2 (codes "dd") TokenType.add
    else if letter lex 1 == b'l'
    then (if letter lex 2 == b'l'
        then check_keyword lex 1 2 (codes "ll") TokenType.all
        else if letter lex 2 == b't'
        then check_keyword lex 1 4 (codes "lter") TokenType.alter
        else TokenType.identifier)
    else if letter lex 1 == b'n'
    then (if letter lex 2 == b'd'
        then check_keyword lex 1 2 (codes "nd") TokenType.and
        else if letter lex 2 == b'y'
        then check_keyword lex 1 2 (codes "ny") TokenType.any
        else TokenType.identifier)
    else if letter lex 1 == b's'
    then (if letter lex 2 == b'c'
        then check_keyword lex 1 2 (codes "sc") TokenType.asc
        else check_keyword lex 1 1 (codes "s") TokenType.as_)
    else TokenType.identifier

unfoldable pub after_b : Lexer → TokenType
after_b lex =
    if letter lex 1 == b'a'
    then check_keyword lex 1 5 (codes "ackup") TokenType.backup
    else if letter lex 1 == b'e'
    then (if letter lex 2 == b'g'
        then check_keyword lex 1 4 (codes "egin") TokenType.begin
        else if letter lex 2 == b't'
        then check_keyword lex 1 6 (codes "etween") TokenType.between
        else check_keyword lex 1 1 (codes "y") TokenType.by)
    else if letter lex 1 == b'y'
    then check_keyword lex 1 1 (codes "y") TokenType.by
    else TokenType.identifier

unfoldable pub after_c : Lexer → TokenType
after_c lex =
    if letter lex 1 == b'a'
    then check_keyword lex 1 3 (codes "ase") TokenType.case
    else if letter lex 1 == b'h'
    then check_keyword lex 1 4 (codes "heck") TokenType.check
    else if letter lex 1 == b'o'
    then (if letter lex 2 == b'l'
        then (if letter lex 3 == b'l'
            then check_keyword lex 1 6 (codes "ollect") TokenType.collect
            else if letter lex 3 == b'u'
            then check_keyword lex 1 5 (codes "olumn") TokenType.column
            else check_keyword lex 1 5 (codes "ommit") TokenType.commit)
        else if letter lex 2 == b'm'
        then check_keyword lex 1 5 (codes "ommit") TokenType.commit
        else if letter lex 2 == b'n'
        then check_keyword lex 1 9 (codes "onstraint") TokenType.constraint
        else TokenType.identifier)
    else if letter lex 1 == b'r'
    then check_keyword lex 1 5 (codes "reate") TokenType.create
    else TokenType.identifier

unfoldable pub after_d : Lexer → TokenType
after_d lex =
    if letter lex 1 == b'a'
    then check_keyword lex 1 7 (codes "atabase") TokenType.database
    else if letter lex 1 == b'e'
    then (if letter lex 2 == b'f'
        then check_keyword lex 1 6 (codes "efault") TokenType.default
        else if letter lex 2 == b'l'
        then check_keyword lex 1 5 (codes "elete") TokenType.delete
        else if letter lex 2 == b's'
        then check_keyword lex 1 3 (codes "esc") TokenType.desc
        else TokenType.identifier)
    else if letter lex 1 == b'i'
    then (if letter lex 3 == b'c'
        then check_keyword lex 1 6 (codes "iscard") TokenType.discard
        else if letter lex 3 == b't'
        then check_keyword lex 1 7 (codes "istinct") TokenType.distinct
        else TokenType.identifier)
    else if letter lex 1 == b'r'
    then check_keyword lex 1 3 (codes "rop") TokenType.drop
    else TokenType.identifier

unfoldable pub after_e : Lexer → TokenType
after_e lex =
    if letter lex 1 == b'x'
    then (if letter lex 2 == b'e'
        then check_keyword lex 1 3 (codes "xec") TokenType.exec
        else if letter lex 2 == b'i'
        then check_keyword lex 1 5 (codes "xists") TokenType.exists
        else TokenType.identifier)
    else TokenType.identifier

unfoldable pub after_f : Lexer → TokenType
after_f lex =
    if letter lex 1 == b'o'
    then check_keyword lex 1 6 (codes "oreign") TokenType.foreign
    else if letter lex 1 == b'r'
    then check_keyword lex 1 3 (codes "rom") TokenType.from
    else if letter lex 1 == b'u'
    then check_keyword lex 1 3 (codes "ull") TokenType.full
    else TokenType.identifier

unfoldable pub after_i : Lexer → TokenType
after_i lex =
    if letter lex 1 == b'n'
    then (if letter lex 2 == b'd'
        then check_keyword lex 1 4 (codes "ndex") TokenType.index
        else if letter lex 2 == b'n'
        then check_keyword lex 1 4 (codes "nner") TokenType.inner
        else if letter lex 2 == b's'
        then check_keyword lex 1 5 (codes "nsert") TokenType.insert
        else if letter lex 2 == b't'
        then check_keyword lex 1 3 (codes "nto") TokenType.into
        else check_keyword lex 1 1 (codes "n") TokenType.in_)
    else if letter lex 1 == b's'
    then check_keyword lex 1 1 (codes "s") TokenType.is
    else TokenType.identifier

unfoldable pub after_l : Lexer → TokenType
after_l lex =
    if letter lex 1 == b'e'
    then check_keyword lex 1 3 (codes "eft") TokenType.left
    else if letter lex 1 == b'i'
    then (if letter lex 2 == b'k'
        then check_keyword lex 1 3 (codes "ike") TokenType.like
        else if letter lex 2 == b'm'
        then check_keyword lex 1 4 (codes "imit") TokenType.limit
        else TokenType.identifier)
    else TokenType.identifier

unfoldable pub after_n : Lexer → TokenType
after_n lex =
    if letter lex 1 == b'o'
    then check_keyword lex 1 2 (codes "ot") TokenType.not
    else if letter lex 1 == b'u'
    then check_keyword lex 1 3 (codes "ull") TokenType.null
    else TokenType.identifier

unfoldable pub after_o : Lexer → TokenType
after_o lex =
    if letter lex 1 == b'n'
    then check_keyword lex 1 1 (codes "n") TokenType.on
    else if letter lex 1 == b'r'
    then (if letter lex 2 == b'd'
        then check_keyword lex 1 4 (codes "rder") TokenType.order
        else check_keyword lex 1 1 (codes "r") TokenType.or)
    else if letter lex 1 == b'u'
    then check_keyword lex 1 4 (codes "uter") TokenType.outer
    else TokenType.identifier

unfoldable pub after_p : Lexer → TokenType
after_p lex =
    if letter lex 1 == b'r'
    then (if letter lex 2 == b'i'
        then check_keyword lex 1 6 (codes "rimary") TokenType.primary
        else if letter lex 2 == b'o'
        then check_keyword lex 1 8 (codes "rocedure") TokenType.procedure
        else TokenType.identifier)
    else TokenType.identifier

unfoldable pub after_r : Lexer → TokenType
after_r lex =
    if letter lex 1 == b'e'
    then check_keyword lex 1 6 (codes "eplace") TokenType.replace
    else if letter lex 1 == b'i'
    then check_keyword lex 1 4 (codes "ight") TokenType.right
    else if letter lex 1 == b'o'
    then check_keyword lex 1 5 (codes "ownum") TokenType.rownum
    else TokenType.identifier

unfoldable pub after_s : Lexer → TokenType
after_s lex =
    if letter lex 1 == b'e'
    then (if letter lex 2 == b'l'
        then check_keyword lex 1 5 (codes "elect") TokenType.select
        else if letter lex 2 == b't'
        then check_keyword lex 1 2 (codes "et") TokenType.set
        else TokenType.identifier)
    else TokenType.identifier

unfoldable pub after_t : Lexer → TokenType
after_t lex =
    if letter lex 1 == b'a'
    then check_keyword lex 1 4 (codes "able") TokenType.table
    else if letter lex 1 == b'o'
    then check_keyword lex 1 2 (codes "op") TokenType.top
    else if letter lex 1 == b'r'
    then (if letter lex 2 == b'a'
        then check_keyword lex 1 10 (codes "ransaction") TokenType.transaction
        else if letter lex 2 == b'u'
        then check_keyword lex 1 7 (codes "runcate") TokenType.truncate
        else TokenType.identifier)
    else TokenType.identifier

unfoldable pub after_u : Lexer → TokenType
after_u lex =
    if letter lex 1 == b'n'
    then (if letter lex 2 == b'i'
        then (if letter lex 3 == b'o'
            then check_keyword lex 1 4 (codes "nion") TokenType.union
            else if letter lex 3 == b'q'
            then check_keyword lex 1 5 (codes "nique") TokenType.unique
            else TokenType.identifier)
        else TokenType.identifier)
    else if letter lex 1 == b'p'
    then check_keyword lex 1 5 (codes "pdate") TokenType.update
    else TokenType.identifier

unfoldable pub after_v : Lexer → TokenType
after_v lex =
    if letter lex 1 == b'a'
    then check_keyword lex 1 5 (codes "alues") TokenType.values
    else if letter lex 1 == b'i'
    then check_keyword lex 1 3 (codes "iew") TokenType.view
    else TokenType.identifier

unfoldable pub identifier_type : Lexer → TokenType
identifier_type lex =
    if letter lex 0 == b'a'
    then after_a lex
    else if letter lex 0 == b'b'
    then after_b lex
    else if letter lex 0 == b'c'
    then after_c lex
    else if letter lex 0 == b'd'
    then after_d lex
    else if letter lex 0 == b'e'
    then after_e lex
    else if letter lex 0 == b'f'
    then after_f lex
    else if letter lex 0 == b'g'
    then check_keyword lex 1 4 (codes "roup") TokenType.group
    else if letter lex 0 == b'h'
    then check_keyword lex 1 5 (codes "aving") TokenType.having
    else if letter lex 0 == b'i'
    then after_i lex
    else if letter lex 0 == b'j'
    then check_keyword lex 1 3 (codes "oin") TokenType.join
    else if letter lex 0 == b'k'
    then check_keyword lex 1 2 (codes "ey") TokenType.key
    else if letter lex 0 == b'l'
    then after_l lex
    else if letter lex 0 == b'n'
    then after_n lex
    else if letter lex 0 == b'o'
    then after_o lex
    else if letter lex 0 == b'p'
    then after_p lex
    else if letter lex 0 == b'r'
    then after_r lex
    else if letter lex 0 == b's'
    then after_s lex
    else if letter lex 0 == b't'
    then after_t lex
    else if letter lex 0 == b'u'
    then after_u lex
    else if letter lex 0 == b'v'
    then after_v lex
    else if letter lex 0 == b'w'
    then check_keyword lex 1 4 (codes "here") TokenType.where_
    else TokenType.identifier
