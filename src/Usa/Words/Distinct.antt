-- ===== src/Usa/Words/Distinct.antt =====
-- The components and the properties can be told apart.
use usched.Usa.Words.{Component, Property}

pub Component-discrete : Discrete Component
Component-discrete = hlevel

pub Property-discrete : Discrete Property
Property-discrete = hlevel

pub Setting-discrete : Discrete (Component × Property)
Setting-discrete = hlevel
