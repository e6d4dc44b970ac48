-- ===== src/Driver/Usage.antt =====
-- The help message: s_usage (src/utot.cpp).
use uppaal_to_tchecker.Base.{Text, codes, [], ◌∷◌, ◌++◌}

-- A line with its end.
abbrev line : Text → Text
line t = t ++ 10 ∷ []

-- A line of an option: its name, a tab, and what it does.
abbrev option_line : Text → Text → Text
option_line name what = line (name ++ 9 ∷ what)

-- s_usage
unfoldable pub usage_text : Text → Text
usage_text cmd =
    line (codes "usage: " ++ (cmd ++ codes " [options] [uppaal-input-file] [tchecker-output-file]"))
    ++ line (codes "where options are: ")
    ++ option_line (codes "--debug, -d ") (codes " enable debug traces")
    ++ option_line (codes "--erase, -e ") (codes " erase output file if it exists")
    ++ option_line (codes "--help, -h ") (codes " display this help message.")
    ++ option_line (codes "--verbose, -V ") (codes " increase the level of verbosity")
    ++ option_line (codes "--version, -v ") (codes " display version number")
    ++ option_line (codes "--xml ") (9 ∷ codes " enforce XML as input format")
    ++ option_line (codes "--xta ") (9 ∷ codes " enforce XTA as input language")
    ++ option_line (codes "--ta ") (9 ∷ codes " enforce TA as input language")
    ++ option_line (codes "--sysname id ") (codes " specify the label of the system")
    ++ option_line (codes "-- ") (9 ∷ codes " specify the end of options (if necessary)")
    ++ line []
    ++ line (codes "If no input file is specified, the standard input is used.")
    ++ line (
        codes "If several 'xta', 'xml' or 'ta' options are used the last one " ++ codes "prevails.")
    ++ line []
