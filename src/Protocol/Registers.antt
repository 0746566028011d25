-- ===== src/Protocol/Registers.antt =====
-- crates/sismatic-core/src/protocol/instructions/register.rs: the catalog of the metadata registers.
use sismatic.Common.{String, List, [], ◌∷◌, Option, find_first}
use sismatic.Protocol.Names.{spelled}

pub data Register : Type 0 where
  contributor course coverage description format language presenter publisher relation : Register
  rights source subject system_name title type : Register

-- `Register::ALL`.
abbrev pub all_register : List Register
all_register =
    Register.contributor ∷ Register.course ∷ Register.coverage ∷ Register.description
    ∷ Register.format ∷ Register.language ∷ Register.presenter ∷ Register.publisher
    ∷ Register.relation ∷ Register.rights ∷ Register.source ∷ Register.subject
    ∷ Register.system_name ∷ Register.title ∷ Register.type ∷ []

unfoldable pub register_name : Register → String
register_name Register.contributor = "CONTRIBUTOR"
register_name Register.course = "COURSE"
register_name Register.coverage = "COVERAGE"
register_name Register.description = "DESCRIPTION"
register_name Register.format = "FORMAT"
register_name Register.language = "LANGUAGE"
register_name Register.presenter = "PRESENTER"
register_name Register.publisher = "PUBLISHER"
register_name Register.relation = "RELATION"
register_name Register.rights = "RIGHTS"
register_name Register.source = "SOURCE"
register_name Register.subject = "SUBJECT"
register_name Register.system_name = "SYSTEMNAME"
register_name Register.title = "TITLE"
register_name Register.type = "TYPE"

-- The canonical name and the aliases.
unfoldable pub register_accepted : Register → List String
register_accepted Register.contributor = "CONTRIBUTOR" ∷ []
register_accepted Register.course = "COURSE" ∷ []
register_accepted Register.coverage = "COVERAGE" ∷ []
register_accepted Register.description = "DESCRIPTION" ∷ []
register_accepted Register.format = "FORMAT" ∷ []
register_accepted Register.language = "LANGUAGE" ∷ []
register_accepted Register.presenter = "PRESENTER" ∷ []
register_accepted Register.publisher = "PUBLISHER" ∷ []
register_accepted Register.relation = "RELATION" ∷ []
register_accepted Register.rights = "RIGHTS" ∷ []
register_accepted Register.source = "SOURCE" ∷ []
register_accepted Register.subject = "SUBJECT" ∷ []
register_accepted Register.system_name = "SYSTEMNAME" ∷ []
register_accepted Register.title = "TITLE" ∷ []
register_accepted Register.type = "TYPE" ∷ []

-- `Register::from_str`.
unfoldable pub register_from_str : String → Option Register
unfolding spelled find_first
register_from_str s = spelled register_accepted s all_register
